-- ===== src/Jobs/Estimation/PreProcess.antt =====
-- coreapp/estimation/job.go: `PreProcess`, with the request for the circuits.
use oqtopus_engine.Prelude.{
  true, false, none, some, [], Outcome, ok, err, panic, ◌>>=◌, or_panic, if◌then◌else◌,
}
use oqtopus_engine.Prelude.Dict.{string_eq}
use oqtopus_engine.Core.Fault.{Fault}
use oqtopus_engine.Core.Mapping.{VirtualPhysicalMappingMap, to_map}
use oqtopus_engine.Core.Data.{JobData, need_transpiling, set_failure}
use oqtopus_engine.Core.Job.{Call, done, Run, returned, panicked}
use oqtopus_engine.Jobs.Estimation.Operators.{serialize_operators, mapping_list}
use oqtopus_engine.Jobs.Estimation.State.{EstimationJob, PreProcessReply, Services, address}

-- The mapping of `estimationPreProcess`: empty without a transpiler. The transpiler's information is read
-- in both cases.
unfoldable pub mapping_of : Services → JobData → Outcome Fault VirtualPhysicalMappingMap
unfolding need_transpiling to_map
mapping_of s jd = need_transpiling jd >>= λ need. or_panic jd.result.transpiler_info >>= λ ti.
    if need then to_map (s.decode_mapping ti.virtual_physical_mapping_raw) else ok []

-- `estimationPreProcess`. Its status FAILED after a refused request is written again by `PreProcess`.
unfoldable pub estimation_pre_process : Services → EstimationJob → Outcome Fault PreProcessReply
unfolding mapping_of mapping_list
estimation_pre_process s j = mapping_of s j.job_data >>= λ mapping.
    s.estimator_pre (address j) (record {
      qasm_code = j.used_qasm;
      operators = j.orig_operators;
      basis_gates = j.setting.basis_gates;
      mapping_list = mapping_list mapping;
    })

-- `preProcessImpl` once the program is known.
unfoldable pub pre_process_operators : Services → EstimationJob → Call EstimationJob
unfolding serialize_operators estimation_pre_process
pre_process_operators s j =
    elim (serialize_operators s.format_g s.decode_operators j.job_data.info) [
      | err e ↦ Call.failed e j
      | panic ↦ Call.panicked j
      | ok sj ↦
          let j1 = record j { orig_operators = sj } in
          elim (estimation_pre_process s j1) [
            | ok r ↦ done (record j1 {
              preprocessed_qasms = r.qasm_codes;
              grouped_operators = r.grouped_operators;
            })
            | err e ↦ Call.failed e (record j1 { preprocessed_qasms = []; grouped_operators = "" })
            | panic ↦ Call.panicked j1
          ]
    ]

-- `preProcessImpl` with the transpiler.
unfoldable pub transpile_first : Services → EstimationJob → Call EstimationJob
unfolding pre_process_operators
transpile_first s j = elim (s.transpile j.job_data) [
  | done d ↦ pre_process_operators s (record j { job_data = d; used_qasm = d.transpiled_qasm })
  | Call.failed e d ↦ Call.failed e (record j { job_data = d })
  | Call.panicked d ↦ Call.panicked (record j { job_data = d })
]

unfoldable pub pre_process_impl : Services → EstimationJob → Call EstimationJob
unfolding need_transpiling transpile_first pre_process_operators
pre_process_impl s j = elim (s.insert_job j.job_data) [
  | some e ↦ Call.failed e j
  | none ↦ elim (need_transpiling j.job_data) [
    | ok true ↦ transpile_first s (record j { use_transpiler = true })
    | ok false ↦ pre_process_operators s (record j { used_qasm = j.job_data.qasm })
    | err e ↦ Call.failed e j
    | panic ↦ Call.panicked j
  ]
]

unfoldable pub pre_process : Services → EstimationJob → Run EstimationJob
unfolding pre_process_impl set_failure
pre_process s j = elim (pre_process_impl s j) [
  | done j1 ↦ returned j1
  | Call.failed e j1 ↦
      returned (record j1 { job_data = set_failure s.now e j1.job_data; finished = true })
  | Call.panicked j1 ↦ panicked j1
]
