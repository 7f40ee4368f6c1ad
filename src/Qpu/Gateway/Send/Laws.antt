-- ===== src/Qpu/Gateway/Send/Laws.antt =====
-- What `CallJob` and `Send` leave behind, on every branch.
use oqtopus_engine.Prelude.{
  ℕ, Option, none, some, Outcome, ok, err, panic, Bool, true, false, ◌≡◌, refl, ◌⊎◌, inl, inr,
  arith, ap,
}
use oqtopus_engine.Prelude.Int.{ℤ, pos, negsuc, ◌≤ℤ◌, uint32}
use oqtopus_engine.Core.Fault.{Fault}
use oqtopus_engine.Core.Status.{Status, succeeded, failed}
use oqtopus_engine.Core.Data.{JobData, of_fault, set_failure}
use oqtopus_engine.Core.Job.{Call, done, panicked}
use oqtopus_engine.Core.Manager.{Environment, check_shots}
use oqtopus_engine.Qpu.Gateway.Send.{
  JobStatus, JobReply, JobRequest, GatewayResult, to_uint32, job_request, take_result, call_job,
  send, job_success, job_failure, job_inactive, job_other,
}

-- The identity and the flag that a call keeps.
pub record IsKept (jd d : JobData) : Type 0 where
  pub same_id : d.id ≡ jd.id
  pub same_flag : d.use_job_info_update ≡ jd.use_job_info_update

-- The status of a job that a panic left: the one it had, or a final one.
abbrev pub HasStatus : JobData → JobData → Type 0
HasStatus jd d = (d.status ≡ jd.status) ⊎ ((d.status ≡ succeeded) ⊎ (d.status ≡ failed))

-- What a call leaves: it keeps the identity of the job, and where it returns nil the status is final.
abbrev pub Leaves : JobData → Call JobData → Type 0
Leaves jd (done d) = IsKept jd d × ((d.status ≡ succeeded) ⊎ (d.status ≡ failed))
Leaves jd (Call.failed e d) = IsKept jd d
Leaves jd (panicked d) = IsKept jd d × HasStatus jd d

take_result-Leaves :
    (elapsed : ℕ) (r : Option GatewayResult) (jd d : JobData)
    → IsKept jd d
    → (d.status ≡ succeeded) ⊎ (d.status ≡ failed)
    → Leaves jd (take_result elapsed r d)
unfolding take_result
take_result-Leaves elapsed none jd d k s = (k, inr s)
take_result-Leaves elapsed (some r) jd d k s =
    (record { same_id = k.same_id; same_flag = k.same_flag }, s)

kept : (jd : JobData) (st : Status) → IsKept jd (record jd { status = st })
kept jd st = record { same_id = refl; same_flag = refl }

pub call_job-Leaves :
    (gateway : JobRequest → Outcome Fault JobReply) (unknown : JobStatus → Fault) (elapsed : ℕ)
    (jd : JobData)
    → Leaves jd (call_job gateway unknown elapsed jd)
unfolding call_job
call_job-Leaves gateway unknown elapsed jd = by (gateway (job_request jd))
  where
    unchanged : IsKept jd jd
    unchanged = record { same_id = refl; same_flag = refl }

    by_status :
        (r : Option GatewayResult) (s : JobStatus)
        → Leaves jd (elim s [
          | job_success ↦ take_result elapsed r (record jd { status = succeeded })
          | job_failure ↦ take_result elapsed r (record jd { status = failed })
          | job_inactive ↦ take_result elapsed r (record jd { status = failed })
          | job_other n ↦ Call.failed (unknown (job_other n)) jd
        ])
    by_status r job_success = take_result-Leaves elapsed r jd _ (kept jd succeeded) (inl refl)
    by_status r job_failure = take_result-Leaves elapsed r jd _ (kept jd failed) (inr refl)
    by_status r job_inactive = take_result-Leaves elapsed r jd _ (kept jd failed) (inr refl)
    by_status r (job_other n) = unchanged

    by :
        (o : Outcome Fault JobReply)
        → Leaves jd (elim o [
          | err e ↦ Call.failed e jd
          | panic ↦ panicked jd
          | ok reply ↦ elim reply.status [
            | job_success ↦ take_result elapsed reply.result (record jd { status = succeeded })
            | job_failure ↦ take_result elapsed reply.result (record jd { status = failed })
            | job_inactive ↦ take_result elapsed reply.result (record jd { status = failed })
            | job_other n ↦ Call.failed (unknown (job_other n)) jd
          ]
        ])
    by (ok reply) = by_status reply.result reply.status
    by (err e) = unchanged
    by panic = (unchanged, inl refl)

-- What `GatewayQPU.Send` leaves, where it returns: a final status, FAILED if it returns an error, and in that
-- case the error as the message of the result.
abbrev pub IsFinal : JobData → Call JobData → Type 0
IsFinal jd (done d) = IsKept jd d × ((d.status ≡ succeeded) ⊎ (d.status ≡ failed))
IsFinal jd (Call.failed e d) = IsKept jd d × (d.status ≡ failed) × (d.result.message ≡ of_fault e)
IsFinal jd (panicked d) = IsKept jd d × HasStatus jd d

-- For every answer of the gateway, connected or not, a `send` over `call_job` keeps the job's identity and
-- its flag, and where it does not panic it leaves a final status: SUCCEEDED or FAILED where it returns nil, and
-- FAILED with the error as the message where it returns an error. A panic leaves a final status
-- or the one that the job had.
pub send-IsFinal :
    (gateway : JobRequest → Outcome Fault JobReply) (unknown : JobStatus → Fault) (connected : Bool)
    (now elapsed : ℕ) (jd : JobData)
    → IsFinal jd (send connected now (call_job gateway unknown elapsed) jd)
unfolding send set_failure
send-IsFinal gateway unknown false now elapsed jd =
    (record { same_id = refl; same_flag = refl }, refl, refl)
send-IsFinal gateway unknown true now elapsed jd =
    by (call_job gateway unknown elapsed jd) (call_job-Leaves gateway unknown elapsed jd)
  where
    by :
        (c : Call JobData)
        → Leaves jd c
        → IsFinal jd (elim c [
          | done d ↦ done (record d { ended = now })
          | Call.failed e d ↦ Call.failed e (set_failure now e d)
          | panicked d ↦ panicked d
        ])
    by (done d) (k, s) = (record { same_id = k.same_id; same_flag = k.same_flag }, s)
    by (Call.failed e d) k = (record { same_id = k.same_id; same_flag = k.same_flag }, refl, refl)
    by (panicked d) k = k

accepted_shots :
    (env : Environment) (s : ℤ)
    → check_shots env s ≡ ok tt
    → env.max_shots ≤ℤ pos 4294967295
    → s ≡ pos (to_uint32 s)
unfolding check_shots to_uint32 uint32
accepted_shots env (pos n) h m = ap pos (ground arith)
accepted_shots env (negsuc n) h m = absurd (ground arith)

-- A number of shots that `check_shots` accepts, under a limit that fits in 32 bits, reaches the device as it
-- is: the conversion to uint32 does not wrap.
pub accepted_shots_sent :
    (env : Environment) (jd : JobData)
    → check_shots env jd.shots ≡ ok tt
    → env.max_shots ≤ℤ pos 4294967295
    → jd.shots ≡ pos (job_request jd).shots
unfolding job_request
accepted_shots_sent env jd h m = accepted_shots env jd.shots h m
