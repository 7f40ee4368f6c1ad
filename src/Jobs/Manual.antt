-- ===== src/Jobs/Manual.antt =====
-- coreapp/multiprog/manual/job.go: `ManualJob`, which combines several circuits to one and divides the
-- result. The database, the transpiler and the device are interfaces of
-- the container; `Services` holds what they answer, and what is asked of encoding/json.
pub mod Combine
pub mod Conclusion
pub mod Scheduled
use oqtopus_engine.Prelude.{
  ℕ, String, Bool, true, false, Option, none, some, List, [], ◌∷◌, Outcome, ok, err, panic, ◌>>=◌,
  if◌then◌else◌, ◌≡◌, refl,
}
use oqtopus_engine.Prelude.Int.{ℤ}
use oqtopus_engine.Prelude.Dict.{Bytes, Dict}
use oqtopus_engine.Core.Fault.{Fault, post_process_failed}
use oqtopus_engine.Core.Status.{succeeded, failed, is_failed}
use oqtopus_engine.Core.Data.{JobData, of_fault, set_failure, clone_data}
use oqtopus_engine.Core.Job.{Call, done, Run, returned, panicked, JobInterface}
use oqtopus_engine.Core.Manager.{Environment, check_shots, check_transpiler}
use oqtopus_engine.ResultDivider.{divide_result}
use oqtopus_engine.Jobs.Manual.Combine.{Address, CombineRequest, CombineReply, send_jobdata}

pub record ManualJob : Type 0 where
  pub job_data : JobData
  pub combined_qubits_list : List ℤ
  pub combined_qasm : String
  pub original_qasms : String
  pub post_processed : Bool

pub record Services : Type 0 where
  pub environment : Environment
  -- `none` where there is no error
  pub insert_job : JobData → Option Fault
  pub combine : Address → CombineRequest → Outcome Fault CombineReply
  pub combiner : Address
  pub max_qubits : ℤ
  pub transpile : JobData → Call JobData
  pub send : JobData → Call JobData
  pub decode_qasms : String → Option Fault
  pub encode_qasms : String → String → Outcome Fault String
  pub decode_mapping : Option String → Dict Bytes ℕ
  pub now : ℕ

unfoldable pub rollback_qasm : ManualJob → ManualJob
rollback_qasm j = record j { job_data = record (j.job_data) { qasm = j.original_qasms } }

-- `SetFailureWithError`.
unfoldable pub fail : Services → Fault → ManualJob → ManualJob
unfolding set_failure
fail s e j = record j { job_data = set_failure s.now e j.job_data }

-- The package's own `validateJobParam`.
unfoldable pub validate : Services → JobData → Outcome Fault (Unit {0})
unfolding check_shots check_transpiler
validate s jd =
    check_shots s.environment jd.shots >>= λ _. check_transpiler s.environment jd.transpiler

-- A call that changes the data of the job.
unfoldable pub on_data : ManualJob → Call JobData → Call ManualJob
on_data j (done d) = done (record j { job_data = d })
on_data j (Call.failed e d) = Call.failed e (record j { job_data = d })
on_data j (Call.panicked d) = Call.panicked (record j { job_data = d })

-- `preProcessImpl` from the answer of the combiner on.
unfoldable pub after_combine :
    Services → ManualJob → Outcome Fault (String × List ℤ) → Call ManualJob
unfolding on_data
after_combine s j (err e) = Call.failed e (record j {
  job_data = record (j.job_data) { result = record (j.job_data.result) { message = of_fault e } };
})
after_combine s j panic = Call.panicked j
after_combine s j (ok (qasm, qubits)) =
    let j1 = record j {
      job_data = record (j.job_data) { qasm = qasm };
      combined_qubits_list = qubits;
      combined_qasm = qasm;
    } in
    on_data j1 (s.transpile j1.job_data)

unfoldable pub pre_process_impl : Services → ManualJob → Call ManualJob
unfolding after_combine send_jobdata
pre_process_impl s j = elim (s.insert_job j.job_data) [
  | some e ↦ Call.failed e j
  | none ↦ after_combine s j (send_jobdata s.combine s.combiner s.max_qubits s.now j.job_data)
]

unfoldable pub pre_process : Services → ManualJob → Run ManualJob
unfolding validate pre_process_impl fail rollback_qasm
pre_process s j = elim (validate s j.job_data) [
  | err e ↦ returned (fail s e j)
  | panic ↦ panicked j
  | ok _ ↦ elim (pre_process_impl s (record j { original_qasms = j.job_data.qasm })) [
    | done j1 ↦ returned j1
    | Call.failed e j1 ↦
        let j2 = fail s e (rollback_qasm j1) in
        returned (record j2 { job_data = record (j2.job_data) { use_job_info_update = true } })
    | Call.panicked j1 ↦ panicked j1
  ]
]

unfoldable pub process : Services → ManualJob → Run ManualJob
unfolding rollback_qasm
process s j = elim (s.send j.job_data) [
  | done d ↦ returned (record j { job_data = d })
  | Call.failed e d ↦
      returned (rollback_qasm (record j { job_data = record d { status = failed } }))
  | Call.panicked d ↦ panicked (record j { job_data = d })
]

-- `setQASMJson`.
unfoldable pub set_qasm_json : Services → ManualJob → Call ManualJob
unfolding rollback_qasm
set_qasm_json s j = elim (s.decode_qasms j.original_qasms) [
  | some e ↦ Call.failed e (rollback_qasm j)
  | none ↦ elim (s.encode_qasms j.combined_qasm j.original_qasms) [
    | err e ↦ Call.failed e (rollback_qasm j)
    | panic ↦ Call.panicked j
    | ok qasm ↦ done (record j { job_data = record (j.job_data) { qasm = qasm } })
  ]
]

-- `PostProcess` from the call of `DivideResult` on.
unfoldable pub after_divide : Services → ManualJob → Call JobData → Run ManualJob
unfolding fail
after_divide s j (done d) =
    returned (record j { job_data = record d { status = succeeded; ended = s.now } })
after_divide s j (Call.failed e d) =
    returned (fail s post_process_failed (record j { job_data = d }))
after_divide s j (Call.panicked d) = panicked (record j { job_data = d })

unfoldable pub post_process : Services → ManualJob → Run ManualJob
unfolding set_qasm_json after_divide fail rollback_qasm divide_result
post_process s j = elim (set_qasm_json s (record j { post_processed = true })) [
  | done j1 ↦ after_divide s j1 (divide_result s.decode_mapping j1.job_data j1.combined_qubits_list)
  | Call.failed e j1 ↦ returned (rollback_qasm (fail s post_process_failed j1))
  | Call.panicked j1 ↦ panicked j1
]

unfoldable pub is_finished : ManualJob → Option Bool
is_finished j = some (if j.post_processed then true else is_failed j.job_data.status)

-- The copy is not marked as post-processed.
unfoldable pub clone : ManualJob → ManualJob
unfolding clone_data
clone j = record j { job_data = clone_data j.job_data; post_processed = false }

pub clone-data : (j : ManualJob) → (clone j).job_data ≡ j.job_data
unfolding clone clone_data
clone-data j = refl

abbrev pub manual_job : Services → JobInterface ManualJob
manual_job s = record {
  pre_process = pre_process s;
  process = process s;
  post_process = post_process s;
  is_finished = is_finished;
  job_data = λ j. j.job_data;
  with_job_data = λ j d. record j { job_data = d };
  clone = clone;
  job_data-with = λ j d. refl;
  job_data-clone = clone-data;
}
