-- ===== src/Jobs/Manual/Conclusion.antt =====
-- How the post-processing of a combined job ends.
use oqtopus_engine.Prelude.{
  String, Option, none, some, Outcome, ok, err, panic, true, ◌≡◌, refl, ◌⊎◌, inl, inr,
}
use oqtopus_engine.Core.Fault.{Fault, post_process_failed}
use oqtopus_engine.Core.Status.{succeeded, failed}
use oqtopus_engine.Core.Data.{JobData, of_fault, set_failure}
use oqtopus_engine.Core.Job.{Call, done, Run, returned, panicked}
use oqtopus_engine.ResultDivider.{divide_result}
use oqtopus_engine.Jobs.Manual.{
  ManualJob, Services, rollback_qasm, fail, set_qasm_json, after_divide, post_process, is_finished,
}

-- The job counts as finished, with success, or with a failure whose message says that post-processing failed.
abbrev pub IsConcluded : Run ManualJob → Type 0
IsConcluded (returned j) =
    (is_finished j ≡ some true)
    × ((j.job_data.status ≡ succeeded)
        ⊎ ((j.job_data.status ≡ failed)
            × (j.job_data.result.message ≡ of_fault post_process_failed)))
IsConcluded (panicked j) = j.post_processed ≡ true

abbrev IsMarked : Call ManualJob → Type 0
IsMarked (done j) = j.post_processed ≡ true
IsMarked (Call.failed e j) = j.post_processed ≡ true
IsMarked (Call.panicked j) = j.post_processed ≡ true

set_qasm_json-IsMarked :
    (s : Services) (j : ManualJob) → j.post_processed ≡ true → IsMarked (set_qasm_json s j)
unfolding set_qasm_json rollback_qasm
set_qasm_json-IsMarked s j h = by (s.decode_qasms j.original_qasms)
  where
    encoded :
        (o : Outcome Fault String)
        → IsMarked (elim o [
          | err e ↦ Call.failed e (rollback_qasm j)
          | panic ↦ Call.panicked j
          | ok qasm ↦ done (record j { job_data = record (j.job_data) { qasm = qasm } })
        ])
    encoded (ok q) = h
    encoded (err e) = h
    encoded panic = h

    by :
        (o : Option Fault)
        → IsMarked (elim o [
          | some e ↦ Call.failed e (rollback_qasm j)
          | none ↦ elim (s.encode_qasms j.combined_qasm j.original_qasms) [
            | err e ↦ Call.failed e (rollback_qasm j)
            | panic ↦ Call.panicked j
            | ok qasm ↦ done (record j { job_data = record (j.job_data) { qasm = qasm } })
          ]
        ])
    by (some e) = h
    by none = encoded (s.encode_qasms j.combined_qasm j.original_qasms)

after_divide-IsConcluded :
    (s : Services) (j : ManualJob) (c : Call JobData)
    → j.post_processed ≡ true
    → IsConcluded (after_divide s j c)
unfolding after_divide fail set_failure is_finished
after_divide-IsConcluded s j (done d) h = (rw h refl, inl refl)
after_divide-IsConcluded s j (Call.failed e d) h = (rw h refl, inr (refl, refl))
after_divide-IsConcluded s j (Call.panicked d) h = h

failed_end :
    (s : Services) (j : ManualJob)
    → j.post_processed ≡ true
    → IsConcluded (returned (rollback_qasm (fail s post_process_failed j)))
unfolding rollback_qasm fail set_failure is_finished
failed_end s j h = (rw h refl, inr (refl, refl))

-- If the post-processing of a combined job returns, the job counts as finished and is SUCCEEDED, or it is
-- FAILED with the message that post-processing failed; if it panics, the job is marked as post-processed.
pub post_process-IsConcluded : (s : Services) (j : ManualJob) → IsConcluded (post_process s j)
unfolding post_process
post_process-IsConcluded s j =
    by _ (set_qasm_json-IsMarked s (record j { post_processed = true }) refl)
  where
    by :
        (c : Call ManualJob)
        → IsMarked c
        → IsConcluded (elim c [
          | done j1 ↦
              after_divide s j1 (divide_result s.decode_mapping j1.job_data j1.combined_qubits_list)
          | Call.failed e j1 ↦ returned (rollback_qasm (fail s post_process_failed j1))
          | Call.panicked j1 ↦ panicked j1
        ])
    by (done j1) h = after_divide-IsConcluded s j1 _ h
    by (Call.failed e j1) h = failed_end s j1 h
    by (Call.panicked j1) h = h
