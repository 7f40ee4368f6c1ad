-- ===== src/Sse/Job.antt =====
-- coreapp/sse/job.go: `SSEJob`. The database, the API of the cloud and the files are services.
pub mod Scheduled
use oqtopus_engine.Prelude.{
  ℕ, String, Bool, true, Option, none, some, List, [], ◌∷◌, Outcome, ok, err, panic, refl, ◌≡◌,
}
use oqtopus_engine.Prelude.Dict.{Bytes}
use oqtopus_engine.Core.Fault.{Fault, sse_failed}
use oqtopus_engine.Core.Data.{JobData, set_failure, is_done, clone_data}
use oqtopus_engine.Core.Job.{Call, done, Run, returned, panicked, JobInterface}
use oqtopus_engine.Jobs.Normal.{clone_data-eq}
use oqtopus_engine.Sse.Steps.{Op, delete_dir, Environment, fail_with, first_error}
use oqtopus_engine.Sse.{run_sse}

pub record SseJob : Type 0 where
  pub job_data : JobData
  pub user_program_data : String

pub record Container : Type 0 where
  pub insert : JobData → Option Fault
  pub api_client : Option Fault
  pub get_ssesrc : String → Outcome Fault String
  pub make_input_dir : Option Fault
  pub make_output_dir : Option Fault
  pub decode_base64 : String → Option Bytes
  pub write_file : Bytes → Option Fault
  pub environment : Environment
  pub execution_time : ℕ
  -- the time that the end of a job is stamped with
  pub now : ℕ

-- `makeTmpDir`.
unfoldable pub make_tmp_dir : Container → Option Fault
unfolding fail_with
make_tmp_dir c =
    first_error (fail_with "failed to make temp directory for input" c.make_input_dir)
      (fail_with "failed to make temp directory for output" c.make_output_dir)

-- `makeUserProgramFile`.
unfoldable pub make_user_program_file : Container → String → Option Fault
unfolding fail_with
make_user_program_file c p = elim (c.decode_base64 p) [
  | none ↦ some (sse_failed "failed to decode user program")
  | some b ↦ fail_with "failed to write user program to file" (c.write_file b)
]

-- The job, and the requests for the job's directory.
unfoldable pub pre_process_impl : Container → SseJob → Call SseJob × List Op
unfolding make_tmp_dir make_user_program_file
pre_process_impl c j = elim (first_error (c.insert j.job_data) c.api_client) [
  | some f ↦ (Call.failed f j, [])
  | none ↦ elim (c.get_ssesrc j.job_data.id) [
    | err f ↦ (Call.failed f j, [])
    | panic ↦ (Call.panicked j, [])
    | ok p ↦
        let j1 = record j { user_program_data = p } in
        elim (make_tmp_dir c) [
          | some f ↦ (Call.failed f j1, [])
          | none ↦ elim (make_user_program_file c p) [
            | some f ↦ (Call.failed f j1, delete_dir ∷ [])
            | none ↦ (done j1, [])
          ]
        ]
  ]
]

unfoldable pub pre_process : Container → SseJob → Run SseJob
unfolding pre_process_impl set_failure
pre_process c j = elim (pre_process_impl c j).0 [
  | done j1 ↦ returned j1
  | Call.failed f j1 ↦ returned (record j1 { job_data = set_failure c.now f j1.job_data })
  | Call.panicked j1 ↦ panicked j1
]

-- What `Process` writes after a run without an error.
unfoldable pub mark_ended : Container → JobData → JobData
mark_ended c jd = record jd {
  result = record (jd.result) { execution_time = c.execution_time };
  ended = c.now;
}

unfoldable pub process : Container → SseJob → Run SseJob
unfolding run_sse set_failure mark_ended
process c j =
    let r = run_sse c.environment j.job_data in
    elim r.error [
      | some f ↦ returned (record j { job_data = set_failure c.now f r.job })
      | none ↦ returned (record j { job_data = mark_ended c r.job })
    ]

unfoldable pub post_process : SseJob → Run SseJob
post_process j = returned j

unfoldable pub is_finished : SseJob → Option Bool
is_finished j = some (is_done j.job_data.status)

-- `Clone`, which leaves the user's program out.
unfoldable pub clone : SseJob → SseJob
unfolding clone_data
clone j = record { job_data = clone_data j.job_data; user_program_data = "" }

pub clone_lem : (j : SseJob) → (clone j).job_data ≡ j.job_data
unfolding clone
clone_lem j = clone_data-eq j.job_data

abbrev pub sse_job : Container → JobInterface SseJob
sse_job c = record {
  pre_process = pre_process c;
  process = process c;
  post_process = post_process;
  is_finished = is_finished;
  job_data = λ j. j.job_data;
  with_job_data = λ j d. record j { job_data = d };
  clone = clone;
  job_data-with = λ j d. refl;
  job_data-clone = clone_lem;
}
