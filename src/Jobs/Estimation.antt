-- ===== src/Jobs/Estimation.antt =====
-- coreapp/estimation/job.go: `EstimationJob`, which runs the circuits that the estimator makes of a program
-- and has their counts turned into an expectation value.
pub mod Operators
pub mod State
pub mod PreProcess
pub mod Sorted
pub mod Counted
pub mod Scheduled
use Prim.Native.String.{◌++◌}
use mathlib.Core.List.{◌++◌ as ◌++ᴸ◌}
use oqtopus_engine.Prelude.{
  ℕ, String, Bool, true, false, ◌&&◌, Option, none, some, List, [], ◌∷◌, Outcome, ok, err, panic,
  ◌>>=◌, or_panic, or_else, str_eq, ◌≡◌, refl, if◌then◌else◌,
}
use oqtopus_engine.Prelude.Dict.{Bytes, Dict, lookup, string_eq}
use oqtopus_engine.Core.Fault.{Fault}
use oqtopus_engine.Core.Status.{succeeded, failed, is_failed}
use oqtopus_engine.Core.Mapping.{VirtualPhysicalMappingMap, to_map}
use oqtopus_engine.Core.Setting.{
  Settings, Value, texts, ComponentSetting, table, no_table, get_component_setting, string_at,
}
use oqtopus_engine.Core.Data.{
  JobData, Counts, Estimation, need_transpiling, set_failure, clone_data,
}
use oqtopus_engine.Core.Job.{Call, done, Run, returned, panicked, JobInterface}
use oqtopus_engine.Mitigation.{
  Json, Mitigator, MitigationInfo, new_mitigation_info_from_job_data, pseudo_inverse_mitigation,
}
use oqtopus_engine.Jobs.Estimation.State.{
  EstimationSetting, EstimationJob, PreProcessRequest, PreProcessReply, PostProcessRequest,
  Services, address,
}
use oqtopus_engine.Jobs.Estimation.PreProcess.{pre_process}

-- The program that the device is to run next.
unfoldable pub set_program : String → EstimationJob → EstimationJob
set_program q j = record j {
  job_data =
      if j.use_transpiler
      then record (j.job_data) { transpiled_qasm = q }
      else record (j.job_data) { qasm = q };
}

-- The loop of `Process`.
unfoldable pub process_from : Services → List String → EstimationJob → Run EstimationJob
unfolding set_program
process_from s [] j = returned j
process_from s (q ∷ qs) j =
    let j1 = set_program q j in
    elim (s.send j1.job_data) [
      | Call.failed e d ↦
          returned (record j1 { job_data = record d { status = failed }; finished = true })
      | Call.panicked d ↦ panicked (record j1 { job_data = d })
      | done d ↦ elim (is_failed d.status) [
        | true ↦ returned (record j1 { job_data = d; finished = true })
        | false ↦
            process_from s qs
              (record j1 { job_data = d; counts_list = j1.counts_list ++ᴸ d.result.counts ∷ [] })
      ]
    ]

unfoldable pub process : Services → EstimationJob → Run EstimationJob
unfolding process_from
process s j = process_from s j.preprocessed_qasms j

-- `shouldMitigate`: here the value is compared as it is.
unfoldable pub should_mitigate : Json → MitigationInfo → Bool
should_mitigate json i = elim i.property_raw [
  | none ↦ false
  | some raw ↦ json.valid raw && (elim (json.properties raw) [
    | none ↦ false
    | some props ↦ elim (lookup "ro_error_mitigation" props) [
      | none ↦ false
      | some v ↦ str_eq v "pseudo_inverse"
    ]
  ])
]

-- The counts of one circuit, mitigated on a copy of the job whose status is not looked at.
unfoldable pub mitigate_counts : Services → JobData → Counts → Outcome Fault Counts
unfolding clone_data pseudo_inverse_mitigation
mitigate_counts s jd counts =
    let c = clone_data jd in
    elim (pseudo_inverse_mitigation s.mitigator
      (record c { result = record (c.result) { counts = counts } })) [
        | returned d ↦ ok d.result.counts
        | panicked d ↦ panic
      ]

-- The loop of `PostProcess`; the test is the same for each circuit.
unfoldable pub mitigate_all : Services → Bool → JobData → List Counts → Outcome Fault (List Counts)
unfolding mitigate_counts
mitigate_all s mitigates jd [] = ok []
mitigate_all s mitigates jd (c ∷ cs) =
    (if mitigates then mitigate_counts s jd c else ok c) >>= λ counts.
    mitigate_all s mitigates jd cs >>= λ rest. ok (counts ∷ rest)

-- `PostProcess` from the answer of the estimator on.
unfoldable pub take_estimation :
    Services → EstimationJob → Outcome Fault Estimation → Run EstimationJob
unfolding set_failure
take_estimation s j (ok e) = returned (record j {
  job_data = record (j.job_data) {
    result = record (j.job_data.result) { estimation = some e };
    status = succeeded;
  };
})
take_estimation s j (err e) = returned (record j { job_data = set_failure s.now e j.job_data })
take_estimation s j panic = panicked j

unfoldable pub post_process : Services → EstimationJob → Run EstimationJob
unfolding new_mitigation_info_from_job_data should_mitigate mitigate_all take_estimation
post_process s j =
    let m = new_mitigation_info_from_job_data s.json j.job_data in
    take_estimation s (record j { finished = true })
      (mitigate_all s (should_mitigate s.json m) j.job_data j.counts_list >>= λ counts.
        s.estimator_post (address j)
          (record { counts = counts; grouped_operators = j.grouped_operators }))

unfoldable pub is_finished : EstimationJob → Option Bool
is_finished j = some j.finished

-- The copy has the job's data, and else the zero values.
unfoldable pub clone : EstimationJob → EstimationJob
unfolding clone_data
clone j = record {
  setting = record { host = ""; port = ""; basis_gates = [] };
  job_data = clone_data j.job_data;
  preprocessed_qasms = [];
  orig_operators = "";
  grouped_operators = "";
  counts_list = [];
  use_transpiler = false;
  used_qasm = "";
  finished = false;
}

pub clone-data : (j : EstimationJob) → (clone j).job_data ≡ j.job_data
unfolding clone clone_data
clone-data j = refl

abbrev pub estimation_job : Services → JobInterface EstimationJob
estimation_job s = record {
  pre_process = pre_process s;
  process = process s;
  post_process = post_process s;
  is_finished = is_finished;
  job_data = λ j. j.job_data;
  with_job_data = λ j d. record j { job_data = d };
  clone = clone;
  job_data-with = λ j d. refl;
  job_data-clone = clone-data;
}
