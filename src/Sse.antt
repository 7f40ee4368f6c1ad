-- ===== src/Sse.antt =====
-- coreapp/sse/sserun.go: `RunSSE`, which runs a user's program in a container of its own, over the requests of
-- `Sse.Steps`.
pub mod Steps
pub mod Ends
pub mod Cleanup
pub mod Job
pub mod Router
use oqtopus_engine.Prelude.{
  ℕ, String, Bool, true, false, Option, none, some, List, [], ◌∷◌, ◌++◌, Outcome, ok, err, panic,
  ◌>>=◌, length, ◌==◌, if◌then◌else◌,
}
use oqtopus_engine.Prelude.Int.{ℤ, pos, negsuc}
use oqtopus_engine.Prelude.Dict.{Bytes, Dict}
use oqtopus_engine.Core.Fault.{Fault, sse_failed}
use oqtopus_engine.Core.Status.{Status, to_status}
use oqtopus_engine.Core.Mapping.{to_map}
use oqtopus_engine.Core.Data.{JobData, Counts, TranspilerConfig, text}
use oqtopus_engine.Sse.Steps.{
  Op, volume_create, inspect, stop, remove, volume_remove, delete_dir, ResultFile, Environment,
  Step, Executed, fail_with, first_error, ask, unnamed, start_container, copy_user_program,
  exec_command, copy_result, save_container_log, s3_upload, stop_container, remove_container,
}

module _ (e : Environment) where
  -- What `setResultToOutputJob` writes before it reads the status.
  unfoldable pub write_result : ResultFile → Dict ℕ ℕ → JobData → JobData
  write_result r m jd = record jd {
    result = record {
      counts = r.counts;
      divided_result = none;
      transpiler_info = some (record {
        stats_raw = some r.stats_raw;
        physical_virtual_mapping = [];
        virtual_physical_mapping_raw = some r.virtual_physical_mapping_raw;
        virtual_physical_mapping_map = m;
      });
      estimation = none;
      message = text r.message;
      execution_time = 0;
    };
    transpiled_qasm = r.transpiled_program;
    transpiler = some r.transpiler_info;
  }

  -- The end of `setResultToOutputJob`, from the status on.
  unfoldable pub set_final : ResultFile → Dict ℕ ℕ → JobData → JobData × Option Fault
  unfolding write_result to_status
  set_final r m jd = elim (to_status r.status) [
    | ok st ↦ (record (write_result r m jd) { status = st }, none)
    | err f ↦ (write_result r m jd, some (sse_failed "Unable to get the result"))
    | panic ↦ (write_result r m jd, some (sse_failed "Unable to get the result"))
  ]

  -- The result file with its mapping.
  unfoldable pub read_result : Outcome Fault (ResultFile × Dict ℕ ℕ)
  unfolding to_map
  read_result = e.result_file >>= λ r.
      to_map (e.decode_mapping r.virtual_physical_mapping_raw) >>= λ m. ok (r, m)

  abbrev pub take_result : JobData → Outcome Fault (ResultFile × Dict ℕ ℕ) → JobData × Option Fault
  take_result jd (ok (r, m)) = set_final r m jd
  take_result jd (err f) = (jd, some f)
  take_result jd panic = (jd, some (sse_failed "Unable to get the result"))

  -- `setResultToOutputJob`: the job, and an error.
  unfoldable pub set_result : JobData → JobData × Option Fault
  unfolding set_final read_result
  set_result jd = take_result jd read_result

  -- How `RunSSE` ends.
  pub record End : Type 0 where
    pub job : JobData
    pub error : Option Fault
    pub requests : List Op

  -- `errAfterContainerMake`, which goes on whatever is answered.
  abbrev pub clean_up : List Op
  clean_up = inspect ∷ stop ∷ remove ∷ volume_remove ∷ delete_dir ∷ []

  -- A step whose error ends `RunSSE` with the clean-up.
  abbrev pub or_clean_up : JobData → Step → (List Op → End) → End
  or_clean_up jd (some f, log) next = record {
    job = jd;
    error = some f;
    requests = log ++ clean_up;
  }
  or_clean_up jd (none, log) next = next log

  -- A step whose error ends `RunSSE` at once.
  abbrev pub or_return : JobData → Step → (List Op → End) → End
  or_return jd (some f, log) next = record { job = jd; error = some f; requests = log }
  or_return jd (none, log) next = next log

  -- The error that the end of the program leaves: for a result that was not copied the message is empty.
  abbrev pub skipped : Option (Fault × String) → Option Fault → Option Fault
  skipped none none = none
  skipped none (some f) = some (sse_failed "")
  skipped (some (f, msg)) c = some (sse_failed msg)

  unfoldable pub finish : JobData → Option Fault → List Op → End
  unfolding stop_container remove_container ask
  finish jd error log = or_return jd (stop_container e log) (λ log1.
      or_return jd (remove_container e log1) (λ log2.
        or_return jd (ask e delete_dir "failed to delete tmp directory" log2)
          (λ log3. record { job = jd; error = error; requests = log3 })))

  -- From the copy of the result on.
  unfoldable pub take_output : JobData → Option (Fault × String) → List Op → End
  unfolding copy_result save_container_log s3_upload set_result finish
  take_output jd executed log =
      let (copy_error, log1) = copy_result e log in
      or_clean_up jd (save_container_log e log1) (λ log2. or_clean_up jd (s3_upload e log2) (λ log3.
        let (jd1, result_error) = set_result jd in
        or_clean_up jd1 (result_error, log3) (finish jd1 (skipped executed copy_error))))

  unfoldable pub run_program : JobData → List Op → End
  unfolding exec_command take_output
  run_program jd log = let (executed, log1) = exec_command e log in take_output jd executed log1

  -- The initial command, whose error ends `RunSSE`.
  unfoldable pub init_container : List Op → Step
  unfolding exec_command
  init_container log = unnamed e (exec_command e log)

  unfoldable pub run_sse : JobData → End
  unfolding ask fail_with start_container init_container copy_user_program run_program
  run_sse jd =
      elim (first_error (fail_with "failed to marshal json" (e.convert_json jd))
        (fail_with "Failed to init container" e.docker_client)) [
          | some f ↦ record { job = jd; error = some f; requests = delete_dir ∷ [] }
          | none ↦ or_clean_up jd (ask e volume_create "failed to create volume" []) (λ log1.
              or_clean_up jd (start_container e log1) (λ log2.
                or_clean_up jd (init_container log2)
                  (λ log3. or_clean_up jd (copy_user_program e log3) (run_program jd))))
        ]
