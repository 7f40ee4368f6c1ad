-- ===== src/Qpu/Gateway/Send.antt =====
-- coreapp/qpu/gateway.go: `CallJob`, which runs a job on the device. The gateway's answer is a
-- parameter, and the time that it took.
pub mod Laws
use oqtopus_engine.Prelude.{
  ℕ, ◌-◌, ◌%◌, String, Bool, Option, none, some, Outcome, ok, err, panic, str_eq, if◌then◌else◌,
}
use oqtopus_engine.Prelude.Int.{ℤ, pos, negsuc, uint32}
use oqtopus_engine.Core.Fault.{Fault, gateway_not_connected}
use oqtopus_engine.Core.Status.{Status, succeeded, failed}
use oqtopus_engine.Core.Data.{Counts, JobData, Message, text, set_failure}
use oqtopus_engine.Core.Job.{Call, done, panicked}

-- The status of a job at the gateway; the last is any other number.
pub data JobStatus : Type 0 where
  job_success job_failure job_inactive : JobStatus
  job_other : ℕ → JobStatus

pub record GatewayResult : Type 0 where
  pub counts : Counts
  pub message : String

-- The reply to a request; `result` is a pointer.
pub record JobReply : Type 0 where
  pub status : JobStatus
  pub result : Option GatewayResult

pub record JobRequest : Type 0 where
  pub job_id : String
  pub shots : ℕ
  pub program : String

-- `uint32(shots)`, which keeps the lowest 32 bits of a negative number too.
unfoldable pub to_uint32 : ℤ → ℕ
unfolding uint32
to_uint32 (pos n) = uint32 n
to_uint32 (negsuc n) = 4294967295 - n % 4294967296

-- What `CallJob` sends.
unfoldable pub job_request : JobData → JobRequest
unfolding to_uint32
job_request jd = record {
  job_id = jd.id;
  shots = to_uint32 jd.shots;
  program = if str_eq jd.transpiled_qasm "" then jd.qasm else jd.transpiled_qasm;
}

-- The last lines of `CallJob`: the result is read through a pointer, after the status is set.
unfoldable pub take_result : ℕ → Option GatewayResult → JobData → Call JobData
take_result elapsed none jd = panicked jd
take_result elapsed (some r) jd = done (record jd {
  result = record (jd.result) {
    counts = r.counts;
    message = text r.message;
    execution_time = elapsed;
  };
})

unfoldable pub call_job :
    (JobRequest → Outcome Fault JobReply) → (JobStatus → Fault) → ℕ → JobData → Call JobData
unfolding job_request take_result
call_job gateway unknown elapsed jd = elim (gateway (job_request jd)) [
  | err e ↦ Call.failed e jd
  | panic ↦ panicked jd
  | ok reply ↦ elim reply.status [
    | job_success ↦ take_result elapsed reply.result (record jd { status = succeeded })
    | job_failure ↦ take_result elapsed reply.result (record jd { status = failed })
    | job_inactive ↦ take_result elapsed reply.result (record jd { status = failed })
    | job_other n ↦ Call.failed (unknown (job_other n)) jd
  ]
]

-- `GatewayQPU.Send` (coreapp/qpu/qpu.go), with the call of its agent and the time `now`.
unfoldable pub send : Bool → ℕ → (JobData → Call JobData) → JobData → Call JobData
unfolding set_failure
send connected now call jd =
    if connected
    then elim (call jd) [
      | done d ↦ done (record d { ended = now })
      | Call.failed e d ↦ Call.failed e (set_failure now e d)
      | panicked d ↦ panicked d
    ]
    else Call.failed gateway_not_connected (set_failure now gateway_not_connected jd)
