-- ===== src/ServiceDb.antt =====
-- coreapp/db/service.go: `ServiceDB`, the database that reports to the cloud. Its state is the cloud's, so
-- a call is the requests that it makes, in order, and what it returns; the goroutine of `Setup` has no
-- `recover`. `accepts` says whether a request is answered without an error.
pub mod Reports
pub mod Panics
use oqtopus_engine.Prelude.{
  ℕ, String, Bool, true, false, Option, none, some, List, [], ◌∷◌, Outcome, ok, err, panic,
  if◌then◌else◌,
}
use oqtopus_engine.Core.Fault.{Fault, external, not_found}
use oqtopus_engine.Core.Data.{JobData, Message, need_transpiling}
use oqtopus_engine.Converter.Cloud.{CloudStatus, OptNil, unset, null, set, RawMap}
use oqtopus_engine.Converter.Outgoing.{
  Encoder, JobsJobResult, TranspileResult, OutgoingJob, convert_to_cloud_job,
}

pub record JobInfoUpdate : Type 0 where
  pub overwrite_status : CloudStatus
  pub execution_time : OptNil ℕ
  pub combined_program : String
  pub transpile_result : OptNil TranspileResult
  pub result : OptNil JobsJobResult
  pub message : Message

-- PatchJob (always to running), PatchJobInfo and UpdateJobTranspilerInfo.
pub data Request : Type 0 where
  patch_job : String → Request
  patch_job_info : String → JobInfoUpdate → Request
  update_job_transpiler_info : String → RawMap → Request

abbrev pub Reply : Type 0
Reply = List Request × Outcome Fault (Unit {0})

-- A request that is the last of a call.
unfoldable pub make : (Request → Bool) → Request → Reply
make accepts r = (r ∷ [], if accepts r then ok tt else err (external "api"))

-- `Update` without the flag: only RUNNING is sent.
unfoldable pub update_status : (Request → Bool) → String → CloudStatus → Reply
unfolding make
update_status accepts jid CloudStatus.running = make accepts (patch_job jid)
update_status accepts jid _ = ([], ok tt)

-- The result that is sent: nothing for a failed job.
unfoldable pub sent_result : CloudStatus → JobsJobResult → OptNil JobsJobResult
sent_result CloudStatus.failed r = unset
sent_result _ r = set r

-- The transpilation that is sent, with what the converted job has of it.
unfoldable pub sent_transpile_result :
    Bool → String → OptNil TranspileResult → OptNil TranspileResult
sent_transpile_result false program t = null
sent_transpile_result true program (set t) = set (record t { transpiled_program = program })
sent_transpile_result true program _ =
    set (record { transpiled_program = program; stats = none; virtual_physical_mapping = none })

-- `putTranspilerInfo`.
unfoldable pub put_transpiler_info : (Request → Bool) → OutgoingJob → Reply
unfolding make
put_transpiler_info accepts c = make accepts (update_job_transpiler_info c.job_id c.transpiler_info)

unfoldable pub job_info_update : JobData → OutgoingJob → Bool → JobInfoUpdate
unfolding sent_result sent_transpile_result
job_info_update jd c transpiling = record {
  overwrite_status = c.status;
  execution_time = c.execution_time;
  combined_program = c.combined_program;
  transpile_result = sent_transpile_result transpiling jd.transpiled_qasm c.transpile_result;
  result = sent_result c.status c.result;
  message = c.message;
}

-- From PatchJobInfo on. A bad request is only logged.
unfoldable pub patch_info : (Request → Bool) → JobData → OutgoingJob → Bool → Reply
unfolding job_info_update put_transpiler_info
patch_info accepts jd c transpiling =
    let r = patch_job_info jd.id (job_info_update jd c transpiling) in
    if accepts r
    then (if jd.needs_update_transpiler_info
        then (let (rs, o) = put_transpiler_info accepts c in (r ∷ rs, o))
        else (r ∷ [], ok tt))
    else (r ∷ [], err (external "api"))

-- `Update` with the flag: the transpiler's configuration and its information are read through pointers.
unfoldable pub update_info : (Request → Bool) → JobData → OutgoingJob → Reply
unfolding patch_info need_transpiling
update_info accepts jd c = elim (need_transpiling jd) [
  | ok transpiling ↦ elim jd.result.transpiler_info [
    | none ↦ ([], panic)
    | some ti ↦ patch_info accepts jd c transpiling
  ]
  | err e ↦ ([], err e)
  | panic ↦ ([], panic)
]

unfoldable pub update : Encoder → (Request → Bool) → JobData → Reply
unfolding convert_to_cloud_job update_status update_info
update encoder accepts jd =
    let (jd1, c) = convert_to_cloud_job encoder jd in
    if jd1.use_job_info_update
    then update_info accepts jd1 c
    else update_status accepts jd1.id c.status

-- `Get`, which finds nothing; `Insert` and `Delete` do nothing.
unfoldable pub get : String → Outcome Fault JobData
get job_id = err (not_found job_id)
