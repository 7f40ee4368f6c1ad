-- ===== src/Sse/Ends.antt =====
-- A property of the end of `RunSSE` that a failed step with its clean-up has, and that the regular end has.
use oqtopus_engine.Prelude.{String, Option, none, some, List, [], ◌∷◌, ◌++◌, ◌≡◌, refl}
use oqtopus_engine.Core.Fault.{Fault}
use oqtopus_engine.Core.Data.{JobData}
use oqtopus_engine.Sse.Steps.{
  Op, delete_dir, volume_create, Environment, Step, ask, fail_with, first_error, start_container,
  copy_user_program, exec_command, copy_result, save_container_log, s3_upload,
}
use oqtopus_engine.Sse.{
  End, clean_up, or_clean_up, skipped, finish, take_output, run_program, init_container, set_result,
  run_sse,
}

module _ (e : Environment) (Q : End e → Type 0)
    (broke : (jd : JobData) (f : Fault) (log : List Op)
      → Q (record { job = jd; error = some f; requests = log ++ clean_up e })) where
  or_clean_up-Q :
      (jd : JobData) (s : Step) (next : List Op → End e)
      → ((log : List Op) → s.0 ≡ none → Q (next log))
      → Q (or_clean_up e jd s next)
  or_clean_up-Q jd (none, log) next h = h log refl
  or_clean_up-Q jd (some f, log) next h = broke jd f log

  module _ (jd : JobData)
      (regular : (set_result e jd).1 ≡ none
        → (o : Option Fault) (log : List Op) → Q (finish e (set_result e jd).0 o log)) where
    abbrev resulting : Option (Fault × String) → Option Fault → List Op → End e
    resulting x c log =
        or_clean_up e (set_result e jd).0 ((set_result e jd).1, log)
          (finish e (set_result e jd).0 (skipped e x c))

    abbrev uploading : Option (Fault × String) → Option Fault → List Op → End e
    uploading x c log = or_clean_up e jd (s3_upload e log) (resulting x c)

    uploading-Q :
        (x : Option (Fault × String)) (c : Option Fault) (log : List Op) → Q (uploading x c log)
    uploading-Q x c log = or_clean_up-Q jd (s3_upload e log) (resulting x c) (λ log3 _.
        or_clean_up-Q (set_result e jd).0 ((set_result e jd).1, log3)
          (finish e (set_result e jd).0 (skipped e x c)) (λ log4 h. regular h (skipped e x c) log4))

    run_program-Q : (log : List Op) → Q (run_program e jd log)
    unfolding run_program take_output
    run_program-Q log =
        let (x, log1) = exec_command e log in
        let (c, log2) = copy_result e log1 in
        or_clean_up-Q jd (save_container_log e log2) (uploading x c)
          (λ log3 _. uploading-Q x c log3)

    abbrev copying : List Op → End e
    copying log = or_clean_up e jd (copy_user_program e log) (run_program e jd)

    abbrev preparing : List Op → End e
    preparing log = or_clean_up e jd (init_container e log) copying

    abbrev begun : List Op → End e
    begun log = or_clean_up e jd (start_container e log) preparing

    begun-Q : (log : List Op) → Q (begun log)
    begun-Q log = or_clean_up-Q jd (start_container e log) preparing (λ log2 _.
        or_clean_up-Q jd (init_container e log2) copying (λ log3 _.
          or_clean_up-Q jd (copy_user_program e log3) (run_program e jd)
            (λ log4 _. run_program-Q log4)))

    pub run_sse-Q :
        ((f : Fault) → Q (record { job = jd; error = some f; requests = delete_dir ∷ [] }))
        → Q (run_sse e jd)
    unfolding run_sse
    run_sse-Q early = by (
        first_error (fail_with "failed to marshal json" (e.convert_json jd))
          (fail_with "Failed to init container" e.docker_client))
      where
        by :
            (o : Option Fault)
            → Q (elim o as (λ _. End e) [
              | some f ↦ record { job = jd; error = some f; requests = delete_dir ∷ [] }
              | none ↦ or_clean_up e jd (ask e volume_create "failed to create volume" []) begun
            ])
        by (some f) = early f
        by none =
            or_clean_up-Q jd (ask e volume_create "failed to create volume" []) begun
              (λ log _. begun-Q log)
