-- ===== src/Mitigation.antt =====
-- coreapp/mitig/mitig.go: the mitigation of readout errors. The mitigator is a service: the connection
-- and the request are the functions `dial` and `request` of the record `Mitigator`.
pub mod Lower
pub mod Ends
use oqtopus_engine.Prelude.{
  ℕ, ◌-◌, String, Bool, true, false, ◌&&◌, Option, none, some, List, [], ◌∷◌, map, Outcome, ok, err,
  panic, ◌>>=◌, str_eq, ◌==◌, leb, if◌then◌else◌, length, drop, not,
}
use oqtopus_engine.Prelude.Int.{ℤ, pos, int32}
use oqtopus_engine.Prelude.Text.{trim_space}
use oqtopus_engine.Prelude.Dict.{Bytes, Dict, lookup, insert, bytes_eq, string_eq}
use oqtopus_engine.Core.Fault.{Fault, counts_is_empty, different_key_lengths}
use oqtopus_engine.Core.Status.{succeeded, failed}
use oqtopus_engine.Core.Setting.{
  Settings, ComponentSetting, table, no_table, get_component_setting, string_at, MitigatorSetting,
  new_mitigator_setting,
}
use oqtopus_engine.Core.Address.{valid_address}
use oqtopus_engine.Core.Device.{Qubit, DeviceInfoSpec}
use oqtopus_engine.Core.Data.{JobData, Counts}
use oqtopus_engine.Core.Job.{Run, returned, panicked}
use oqtopus_engine.Qpu.Gateway.Send.{to_uint32}

pub record MitigationInfo : Type 0 where
  pub need_to_be_mitigated : Bool
  pub mitigated : Bool
  pub property_raw : Option String

-- What is asked of encoding/json: whether a text is valid, and its entries if it is a map of texts.
pub record Json : Type 0 where
  pub valid : String → Bool
  pub properties : String → Option (Dict String String)

-- Whether the decoded properties ask for the pseudo inverse, in quotes.
unfoldable pub asks_mitigation : Json → String → Bool
asks_mitigation json raw = elim (json.properties raw) [
  | none ↦ false
  | some props ↦ elim (lookup "ro_error_mitigation" props) [
    | none ↦ false
    | some v ↦ str_eq (trim_space v) "\"pseudo_inverse\""
  ]
]

unfoldable pub new_mitigation_info_from_job_data : Json → JobData → MitigationInfo
unfolding asks_mitigation
new_mitigation_info_from_job_data json jd =
    if not (str_eq jd.mitigation_info "") && json.valid jd.mitigation_info
    then record {
      need_to_be_mitigated = asks_mitigation json jd.mitigation_info;
      mitigated = false;
      property_raw = some jd.mitigation_info;
    }
    else record { need_to_be_mitigated = false; mitigated = false; property_raw = none }

-- The loop of `getNumOfQubits`, with the candidate so far.
unfoldable pub num_of_qubits_from : ℕ → Counts → Outcome Fault ℕ
num_of_qubits_from candidate [] = ok candidate
num_of_qubits_from candidate ((k, v) ∷ counts) =
    let next = num_of_qubits_from (length k) counts in
    let rest = num_of_qubits_from candidate counts in
    if candidate == 0
    then next
    else if candidate == length k
    then rest
    else err different_key_lengths

unfoldable pub get_num_of_qubits : Counts → Outcome Fault ℕ
unfolding num_of_qubits_from
get_num_of_qubits [] = err counts_is_empty
get_num_of_qubits (e ∷ counts) = num_of_qubits_from 0 (e ∷ counts)

unfoldable pub get_lower_bits : Bytes → ℕ → Bytes
get_lower_bits bin_str n =
    if leb (length bin_str) n then bin_str else drop (length bin_str - n) bin_str

-- The last loop of `PseudoInverseMitigation`.
unfoldable pub lower_counts : ℕ → Dict Bytes ℤ → Counts → Counts
unfolding get_lower_bits
lower_counts n [] lbcts = lbcts
lower_counts n ((k, v) ∷ counts) lbcts =
    lower_counts n counts (insert (get_lower_bits k n) (to_uint32 v) lbcts)

-- The settings of the component "mitigator", or the defaults.
unfoldable pub mitigator_setting : Settings → MitigatorSetting
unfolding get_component_setting string_at new_mitigator_setting
mitigator_setting s = elim (get_component_setting "mitigator" s) [
  | none ↦ new_mitigator_setting
  | some no_table ↦ new_mitigator_setting
  | some (table m) ↦ elim (string_at "host" m) [
    | none ↦ new_mitigator_setting
    | some h ↦ elim (string_at "port" m) [
      | none ↦ new_mitigator_setting
      | some p ↦ record { host = h; port = p }
    ]
  ]
]

-- A qubit of the request, a float32 as its bits.
pub record TopologyQubit : Type 0 where
  pub id : ℤ
  pub gate_error : ℕ
  pub t1 : ℕ
  pub t2 : ℕ
  pub p0_m1 : ℕ
  pub p1_m0 : ℕ

pub record DeviceTopology : Type 0 where
  pub name : String
  pub qubits : List TopologyQubit

pub record MitigationRequest : Type 0 where
  pub device_topology : DeviceTopology
  pub counts : Dict Bytes ℤ
  pub program : String

pub record Mitigator : Type 0 where
  pub settings : Settings
  -- whether there is a connection to an address
  pub dial : String → Bool
  -- the answer at an address: the counts that the mitigator gives
  pub request : String → MitigationRequest → Outcome Fault (Dict Bytes ℤ)
  pub device_info_spec_json : String
  pub decode_spec : String → Outcome Fault DeviceInfoSpec
  -- the conversion of a float64 to a float32
  pub to_float32 : ℕ → ℕ

unfoldable pub topology_qubit : (ℕ → ℕ) → Qubit → TopologyQubit
topology_qubit to_float32 q = record {
  id = int32 q.id;
  gate_error = to_float32 q.fidelity;
  t1 = to_float32 q.qubit_life.t1;
  t2 = to_float32 q.qubit_life.t2;
  p0_m1 = to_float32 q.meas_error.prob_meas1_prep0;
  p1_m0 = to_float32 q.meas_error.prob_meas0_prep1;
}

unfoldable pub device_topology : Mitigator → Outcome Fault DeviceTopology
unfolding topology_qubit
device_topology m = m.decode_spec m.device_info_spec_json >>= λ dis.
    ok (record { name = dis.device_id; qubits = map (topology_qubit m.to_float32) dis.qubits })

-- The counts that are sent.
unfoldable pub to_int32_counts : Counts → Dict Bytes ℤ
to_int32_counts [] = []
to_int32_counts ((k, v) ∷ octs) = (k, int32 (pos v)) ∷ to_int32_counts octs

-- From the connection to the answer of the mitigator, reduced to the lower bits.
unfoldable pub request_mitigation : Mitigator → String → ℕ → JobData → Outcome Fault Counts
unfolding device_topology to_int32_counts lower_counts
request_mitigation m target n jd = device_topology m >>= λ dt.
    m.request target (record {
      device_topology = dt;
      counts = to_int32_counts jd.result.counts;
      program = if str_eq jd.transpiled_qasm "" then jd.qasm else jd.transpiled_qasm;
    })
    >>= λ counts. ok (lower_counts n counts [])

unfoldable pub mark_failed : JobData → JobData
mark_failed jd = record jd { status = failed }

-- What the answer, or its error, does to the job.
unfoldable pub finish_mitigation : JobData → Outcome Fault Counts → Run JobData
unfolding mark_failed
finish_mitigation jd (ok lbcts) =
    returned (record jd { result = record (jd.result) { counts = lbcts }; status = succeeded })
finish_mitigation jd (err e) = returned (mark_failed jd)
finish_mitigation jd panic = panicked jd

-- `PseudoInverseMitigation`: without a connection nothing happens to the job.
unfoldable pub pseudo_inverse_mitigation : Mitigator → JobData → Run JobData
unfolding get_num_of_qubits mitigator_setting valid_address finish_mitigation request_mitigation
    mark_failed
pseudo_inverse_mitigation m jd =
    let s = mitigator_setting m.settings in
    elim (get_num_of_qubits jd.result.counts) [
      | err e ↦ returned (mark_failed jd)
      | panic ↦ panicked jd
      | ok n ↦ elim (valid_address s.host s.port) [
        | err e ↦ returned (mark_failed jd)
        | panic ↦ panicked jd
        | ok target ↦
            if m.dial target
            then finish_mitigation jd (request_mitigation m target n jd)
            else returned jd
      ]
    ]
