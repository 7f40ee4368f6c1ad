-- ===== src/Sse/Steps.antt =====
-- coreapp/sse/sserun.go: the requests that `RunSSE` makes, step by step. Docker, the files and the cloud's API are
-- services: the requests to Docker and the deletion of the job's directory are a log, and `Environment` says what
-- each request is answered, by its place in the log.
use oqtopus_engine.Prelude.{
  ℕ, String, Bool, false, Option, none, some, List, [], ◌∷◌, ◌++◌, Outcome, length, ◌==◌,
  if◌then◌else◌,
}
use oqtopus_engine.Prelude.Int.{ℤ, pos, negsuc}
use oqtopus_engine.Prelude.Dict.{Bytes, Dict}
use oqtopus_engine.Core.Fault.{Fault, sse_failed}
use oqtopus_engine.Core.Data.{JobData, Counts, TranspilerConfig}

-- A request; `exec_wait` is the end of the output or the timeout.
pub data Op : Type 0 where
  volume_create volume_remove container_create container_start : Op
  exec_create exec_attach exec_wait exec_inspect : Op
  copy_to copy_from logs upload : Op
  inspect stop remove delete_dir : Op

-- What the engine reads of a result file.
pub record ResultFile : Type 0 where
  pub counts : Counts
  pub stats_raw : String
  pub virtual_physical_mapping_raw : String
  pub transpiled_program : String
  pub message : String
  pub status : String
  pub transpiler_info : TranspilerConfig

pub data WaitEnd : Type 0 where
  output_read output_failed timed_out : WaitEnd

pub record Environment : Type 0 where
  -- `none` where there is no error
  pub answer : ℕ → Op → Option Fault
  pub wait : ℕ → WaitEnd
  pub exit_code : ℕ → ℤ
  -- the message of a timeout, with the number of seconds
  pub timeout_message : String
  pub is_exited : Bool
  -- the job as JSON, the client of Docker, the user's program as a tar, the files of the result and of the
  -- log, and the client of the cloud's API
  pub convert_json : JobData → Option Fault
  pub docker_client : Option Fault
  pub user_program : Option Fault
  pub extract_result : Option Fault
  pub write_log : Option Fault
  pub api_client : Option Fault
  pub read_log : Option Fault
  pub result_file : Outcome Fault ResultFile
  pub decode_mapping : String → Dict Bytes ℕ

-- The error of a step and the requests so far.
abbrev pub Step : Type 0
Step = Option Fault × List Op

abbrev pub first_error : Option Fault → Option Fault → Option Fault
first_error (some f) other = some f
first_error none other = other

-- A failure by `makeErrMsg`, which drops the reason.
unfoldable pub fail_with : String → Option Fault → Option Fault
fail_with msg none = none
fail_with msg (some e) = some (sse_failed msg)

module _ (e : Environment) where
  unfoldable pub ask : Op → String → List Op → Step
  unfolding fail_with
  ask op msg log = (fail_with msg (e.answer (length log) op), log ++ op ∷ [])

  -- The next step, if there is no error.
  abbrev pub and_then : Step → (List Op → Step) → Step
  and_then (some f, log) next = (some f, log)
  and_then (none, log) next = next log

  unfoldable pub start_container : List Op → Step
  unfolding ask
  start_container log =
      and_then (ask container_create "failed to start container" log)
        (ask container_start "failed to start container")

  unfoldable pub copy_user_program : List Op → Step
  unfolding ask
  copy_user_program log = elim e.user_program [
    | some f ↦ (some f, log)
    | none ↦ ask copy_to "failed to copy user program into container" log
  ]

  -- The end of a command: its error with the message that `RunSSE` is to return, which only two errors have.
  abbrev pub Executed : Type 0
  Executed = Option (Fault × String) × List Op

  abbrev pub exec_then : Step → (List Op → Executed) → Executed
  exec_then (some f, log) next = (some (f, ""), log)
  exec_then (none, log) next = next log

  abbrev pub is_zero_code : ℤ → Bool
  is_zero_code (pos n) = n == 0
  is_zero_code (negsuc n) = false

  -- Without the message.
  abbrev pub unnamed : Executed → Step
  unnamed (none, log) = (none, log)
  unnamed (some (f, msg), log) = (some f, log)

  -- From the end of the output on.
  unfoldable pub check_exit : List Op → Executed
  unfolding ask
  check_exit log = exec_then (ask exec_inspect "failed to exec command in container" log) (λ log1.
      if is_zero_code (e.exit_code (length log))
      then (none, log1)
      else (some (sse_failed "exit code is not 0", "exit code is not 0"), log1))

  unfoldable pub wait_output : List Op → Executed
  unfolding check_exit
  wait_output log =
      let log1 = log ++ exec_wait ∷ [] in
      elim (e.wait (length log)) [
        | timed_out ↦ (some (sse_failed e.timeout_message, e.timeout_message), log1)
        | output_failed ↦ (some (sse_failed "failed to exec command in container", ""), log1)
        | output_read ↦ check_exit log1
      ]

  -- `execCommandInContainer`.
  unfoldable pub exec_command : List Op → Executed
  unfolding ask wait_output
  exec_command log =
      exec_then (ask exec_create "failed to exec command in container" log)
        (λ log1. exec_then (ask exec_attach "failed to exec command in container" log1) wait_output)

  -- `copyResultFromContainer`.
  unfoldable pub copy_result : List Op → Step
  unfolding ask fail_with
  copy_result log =
      and_then (ask copy_from "failed to copy result from container" log)
        (λ log1. (fail_with "failed to copy result from container" e.extract_result, log1))

  -- `saveContainerLog`.
  unfoldable pub save_container_log : List Op → Step
  unfolding ask fail_with
  save_container_log log =
      and_then (ask logs "failed to get container log" log)
        (λ log1. (fail_with "failed to get container log" e.write_log, log1))

  -- The client of the API and `s3Upload`.
  unfoldable pub s3_upload : List Op → Step
  unfolding ask
  s3_upload log = elim e.api_client [
    | some f ↦ (some f, log)
    | none ↦ elim e.read_log [
      | some f ↦ (some (sse_failed "failed to upload file to S3"), log)
      | none ↦ ask upload "failed to upload file to S3" log
    ]
  ]

  unfoldable pub stop_container : List Op → Step
  unfolding ask
  stop_container log =
      and_then (ask inspect "failed to stop container" log) (ask stop "failed to stop container")

  unfoldable pub remove_container : List Op → Step
  unfolding ask
  remove_container log = and_then (ask inspect "failed to remove container" log) (λ log1.
      if e.is_exited
      then and_then (ask remove "failed to remove container" log1)
          (ask volume_remove "failed to remove volume")
      else (some (sse_failed "failed to remove container"), log1))
