-- ===== src/Jobs/Manual/Scheduled.antt =====
-- A combined job in the scheduler.
use oqtopus_engine.Prelude.{
  String, Bool, true, some, Outcome, ok, err, panic, Option, none, ◌≡◌, refl, ap, ◌∙◌, subst,
}
use oqtopus_engine.Core.Fault.{Fault, post_process_failed}
use oqtopus_engine.Core.Data.{JobData, set_failure}
use oqtopus_engine.Core.Job.{Call, done, Run, returned, panicked, left, left_of, KeepsFlag}
use oqtopus_engine.ResultDivider.{divide_result}
use oqtopus_engine.ResultDivider.Keeps.{KeepsAllButResult, divide_result-Keeps}
use oqtopus_engine.Jobs.Manual.{
  ManualJob, Services, rollback_qasm, fail, set_qasm_json, after_divide, post_process, is_finished,
  manual_job,
}
use oqtopus_engine.Jobs.Manual.Conclusion.{IsConcluded, post_process-IsConcluded}
use oqtopus_engine.Scheduler.Handle.Settled.{Settles}

abbrev flag_of : ManualJob → Bool
flag_of j = j.job_data.use_job_info_update

set_qasm_json_flag :
    (s : Services) (j : ManualJob) → flag_of (left_of (set_qasm_json s j)) ≡ flag_of j
unfolding set_qasm_json rollback_qasm
set_qasm_json_flag s j = by (s.decode_qasms j.original_qasms)
  where
    encoded :
        (o : Outcome Fault String)
        → flag_of (
            left_of (elim o [
              | err e ↦ Call.failed e (rollback_qasm j)
              | panic ↦ Call.panicked j
              | ok qasm ↦ done (record j { job_data = record (j.job_data) { qasm = qasm } })
            ]))
          ≡ flag_of j
    encoded (ok q) = refl
    encoded (err e) = refl
    encoded panic = refl

    by :
        (o : Option Fault)
        → flag_of (
            left_of (elim o [
              | some e ↦ Call.failed e (rollback_qasm j)
              | none ↦ elim (s.encode_qasms j.combined_qasm j.original_qasms) [
                | err e ↦ Call.failed e (rollback_qasm j)
                | panic ↦ Call.panicked j
                | ok qasm ↦ done (record j { job_data = record (j.job_data) { qasm = qasm } })
              ]
            ]))
          ≡ flag_of j
    by (some e) = refl
    by none = encoded (s.encode_qasms j.combined_qasm j.original_qasms)

after_divide_flag :
    (s : Services) (j : ManualJob) (c : Call JobData)
    → KeepsAllButResult j.job_data (left_of c)
    → flag_of (left (after_divide s j c)) ≡ flag_of j
unfolding after_divide fail set_failure
after_divide_flag s j (done d) h = ap (λ (x : JobData). x.use_job_info_update) h
after_divide_flag s j (Call.failed e d) h = ap (λ (x : JobData). x.use_job_info_update) h
after_divide_flag s j (Call.panicked d) h = ap (λ (x : JobData). x.use_job_info_update) h

post_process_flag : (s : Services) (j : ManualJob) → flag_of (left (post_process s j)) ≡ flag_of j
unfolding post_process rollback_qasm fail set_failure
post_process_flag s j =
    by (set_qasm_json s (record j { post_processed = true }))
      (set_qasm_json_flag s (record j { post_processed = true }))
  where
    by :
        (c : Call ManualJob)
        → flag_of (left_of c) ≡ flag_of j
        → flag_of (
            left (elim c [
              | done j1 ↦
                  after_divide s j1
                    (divide_result s.decode_mapping j1.job_data j1.combined_qubits_list)
              | Call.failed e j1 ↦ returned (rollback_qasm (fail s post_process_failed j1))
              | Call.panicked j1 ↦ panicked j1
            ]))
          ≡ flag_of j
    by (done j1) h =
        after_divide_flag s j1 (divide_result s.decode_mapping j1.job_data j1.combined_qubits_list)
          (divide_result-Keeps s.decode_mapping j1.job_data j1.combined_qubits_list)
        ∙ h
    by (Call.failed e j1) h = h
    by (Call.panicked j1) h = h

pub manual_job-KeepsFlag : (s : Services) → KeepsFlag (manual_job s)
manual_job-KeepsFlag s = record { post_flag = post_process_flag s }

concluded :
    (j : ManualJob) (r : Run ManualJob) → IsConcluded r → r ≡ returned j → is_finished j ≡ some true
concluded j (returned j1) k e = (subst (λ r. IsConcluded r) e k).0
concluded j (panicked j1) k e = cc

pub manual_job-Settles : (s : Services) → Settles (manual_job s)
manual_job-Settles s = record {
  settled =
      λ j j1 f e g. let h = concluded j1 (post_process s _) (post_process-IsConcluded s _) e in cc;
}
