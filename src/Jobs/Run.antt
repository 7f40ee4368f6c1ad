-- ===== src/Jobs/Run.antt =====
-- A normal job from the scheduler through the gateway and back.
use oqtopus_engine.Prelude.{
  ℕ, ◌+◌, Bool, true, false, some, Outcome, ◌≡◌, refl, ◌⊎◌, inl, inr, subst, sym,
}
use oqtopus_engine.Core.Fault.{Fault}
use oqtopus_engine.Core.Status.{running, succeeded, failed, is_ready}
use oqtopus_engine.Core.Data.{JobData, is_done, clone_data}
use oqtopus_engine.Core.Job.{Call, done, Run, returned}
use oqtopus_engine.Jobs.Normal.{Container, normal_job, pre_process, process, is_finished}
use oqtopus_engine.Scheduler.Handle.{
  World, Round, stop, wait, again, round, work, after_work, after_pre, to_queue, recover, send,
  record_own, record_status, set_status, set_use_job_info_update, handle_loop, handle_impl, Handled,
  finished, waits, out_of_fuel,
}
use oqtopus_engine.Scheduler.Handle.Report.{latest}
use oqtopus_engine.Qpu.Gateway.Send.{
  call_job, JobReply, JobRequest, JobStatus, send as gateway_send,
}
use oqtopus_engine.Qpu.Gateway.Send.Laws.{IsFinal, send-IsFinal}

-- The container's device is the gateway's.
pub record IsGateway (c : Container) : Type 0 where
  pub gateway : JobRequest → Outcome Fault JobReply
  pub unknown : JobStatus → Fault
  pub connected : Bool
  pub ended : ℕ
  pub elapsed : ℕ
  pub sends :
      (jd : JobData)
      → c.send jd ≡ gateway_send connected ended (call_job gateway unknown elapsed) jd

final : (jd : JobData) → (jd.status ≡ succeeded) ⊎ (jd.status ≡ failed) → is_done jd.status ≡ true
final jd (inl e) = rw e refl
final jd (inr e) = rw e refl

-- Where a stage returns, the status that it leaves is final.
abbrev FinalRun : Run JobData → Type 0
FinalRun (returned d) = is_done d.status ≡ true
FinalRun (Run.panicked d) = Unit {0}

module _ (c : Container) (g : IsGateway c) where
  process-FinalRun : (jd : JobData) → FinalRun (process c jd)
  unfolding process
  process-FinalRun jd = by (c.send jd) (
      subst (IsFinal jd) (sym (g.sends jd))
        (send-IsFinal g.gateway g.unknown g.connected g.ended g.elapsed jd))
    where
      by :
          (r : Call JobData)
          → IsFinal jd r
          → FinalRun (elim r [
            | done d ↦ returned d
            | Call.failed e d ↦ returned (record d { status = failed })
            | Call.panicked d ↦ Run.panicked d
          ])
      by (done d) (k, s) = final d s
      by (Call.failed e d) k = refl
      by (Call.panicked d) k = tt

  -- The call ends with the round, with the job in a final status and sent to the database last.
  abbrev Stops : Round (normal_job c) → Type 0
  Stops (stop j w) = (is_done j.status ≡ true) × (latest w.sent ≡ some j)
  Stops (wait j w) = ⊥
  Stops (again j w) = ⊥

  recover-Stops : (j : JobData) (w : World) → Stops (recover (normal_job c) j w)
  unfolding recover send set_status record_status clone_data
  recover-Stops j w = (refl, refl)

  after_work-Stops :
      (j : JobData) (w : World) → is_done j.status ≡ true → Stops (after_work (normal_job c) j w)
  unfolding after_work send set_use_job_info_update record_own record_status is_finished clone_data
  after_work-Stops j w h = rw h (h, refl)

  work_final : (j : JobData) (w : World) → is_done (work (normal_job c) j w).0.status ≡ true
  unfolding work set_status
  work_final j w = by (process c (record j { status = running })) (process-FinalRun _) _
    where
      by :
          (r : Run JobData)
          → FinalRun r
          → (w : World)
          → is_done
              (elim r as (λ _. JobData × World) [
                | returned d ↦ (d, w)
                | Run.panicked d ↦
                    let j3 = set_status (normal_job c) failed d in (j3, send (normal_job c) j3 w)
              ]).0.status
            ≡ true
      by (returned d) h w = h
      by (Run.panicked d) h w = refl

  to_queue-Stops : (j : JobData) (w : World) → Stops (to_queue (normal_job c) true j w)
  unfolding to_queue
  to_queue-Stops j w =
      after_work-Stops (work (normal_job c) j w).0 (work (normal_job c) j w).1 (work_final j w)

  after_pre-Stops : (j : JobData) (w : World) → Stops (after_pre (normal_job c) true j w)
  unfolding after_pre set_use_job_info_update record_own is_finished send record_status clone_data
  after_pre-Stops j w = by (is_done j.status) refl
    where
      by : (b : Bool) → is_done j.status ≡ b → Stops (after_pre (normal_job c) true j w)
      by true e = rw (e, after_pre) (rw e (e, refl))
      by false e = rw (e, after_pre) (to_queue-Stops j _)

  round-Stops :
      (j : JobData) (w : World) → is_ready j.status ≡ true → Stops (round (normal_job c) true j w)
  unfolding round set_use_job_info_update
  round-Stops j w h = rw h (by (pre_process c (record j { use_job_info_update = false })) _)
    where
      by :
          (r : Run JobData) (w : World)
          → Stops (elim r [
            | returned d ↦ after_pre (normal_job c) true d w
            | Run.panicked d ↦ recover (normal_job c) d w
          ])
      by (returned d) w = after_pre-Stops d w
      by (Run.panicked d) w = recover-Stops d w

  -- What a call on a READY normal job comes to.
  abbrev pub Completes : Handled (normal_job c) → Type 0
  Completes (finished j w) = (is_done j.status ≡ true) × (latest w.sent ≡ some j)
  Completes (waits j w) = ⊥
  Completes out_of_fuel = ⊥

  -- With the device behind the gateway, a READY normal job that finds a place in the queue is handled to the
  -- end, whatever the transpiler does and whatever the gateway answers, errors and panics included: the call
  -- returns with the status
  -- SUCCEEDED or FAILED, and the last job that was sent to the database is that job.
  pub normal_job-Completes :
      (room : ℕ → Bool) (j : JobData) (w : World)
      → room 0 ≡ true
      → is_ready j.status ≡ true
      → Completes (handle_impl (normal_job c) room j w)
  unfolding handle_impl handle_loop
  normal_job-Completes room j w r h =
      by (round (normal_job c) (room 0) j w)
        (subst (λ b. Stops (round (normal_job c) b j w)) (sym r) (round-Stops j w h))
    where
      by :
          (s : Round (normal_job c))
          → Stops s
          → Completes (elim s [
            | stop j1 w1 ↦ finished j1 w1
            | wait j1 w1 ↦ waits j1 w1
            | again j1 w1 ↦ handle_loop (normal_job c) 1 room (0 + 1) j1 w1
          ])
      by (stop j1 w1) k = k
      by (wait j1 w1) k = absurd k
      by (again j1 w1) k = absurd k
