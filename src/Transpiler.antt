-- ===== src/Transpiler.antt =====
-- coreapp/transpiler/tranqu.go: `Tranqu`, the client of the transpiler. The service, encoding/json and the
-- connection are the record `Client`.
pub mod Mappings
pub mod Transpiled
use oqtopus_engine.Prelude.{
  ℕ, String, Bool, Option, none, some, [], ◌∷◌, Outcome, ok, err, panic, ◌>>=◌, or_panic, str_eq,
  ◌==◌, if◌then◌else◌,
}
use oqtopus_engine.Prelude.Int.{ℤ, pos, negsuc}
use oqtopus_engine.Prelude.Dict.{Bytes, Dict, insert, nat_eq}
use oqtopus_engine.Core.Fault.{
  Fault, external, invalid_key, transpile_failed, tranqu_setting_not_found,
}
use oqtopus_engine.Core.Mapping.{parse_uint}
use oqtopus_engine.Core.Setting.{
  Settings, ComponentSetting, table, no_table, get_component_setting, string_at,
}
use oqtopus_engine.Core.Address.{valid_address}
use oqtopus_engine.Core.Data.{JobData, TranspilerConfig, TranspilerInfo}
use oqtopus_engine.Core.Job.{Call, done}
use oqtopus_engine.Qpu.Gateway.Send.{to_uint32}

pub record TranquSetting : Type 0 where
  pub host : String
  pub port : String

unfoldable pub new_tranqu_setting : TranquSetting
new_tranqu_setting = record { host = "localhost"; port = "50052" }

unfoldable pub is_acceptable_transpiler_lib : String → Bool
is_acceptable_transpiler_lib lib = str_eq lib "qiskit"

-- The setting that `Setup` reads: an entry that is no text panics.
unfoldable pub tranqu_setting : Settings → Outcome Fault TranquSetting
unfolding get_component_setting new_tranqu_setting string_at
tranqu_setting s = elim (get_component_setting "tranqu" s) [
  | none ↦ err tranqu_setting_not_found
  | some no_table ↦ ok new_tranqu_setting
  | some (table m) ↦ or_panic (string_at "host" m) >>= λ h.
      or_panic (string_at "port" m) >>= λ p. ok (record { host = h; port = p })
]

-- The address that `Setup` connects to: that of a setting that is not valid is empty.
unfoldable pub tranqu_address : TranquSetting → String
unfolding valid_address
tranqu_address t = elim (valid_address t.host t.port) [ ok a ↦ a | _ ↦ "" ]

-- `Setup`, where `connect` gives `none` for a connection: the address of the client.
unfoldable pub setup : (String → Option Fault) → Settings → Outcome Fault String
unfolding tranqu_setting tranqu_address
setup connect s = tranqu_setting s >>= λ t. elim (connect (tranqu_address t)) [
  | some e ↦ err e
  | none ↦ ok (tranqu_address t)
]

pub record TranspileRequest : Type 0 where
  pub request_id : String
  pub program : String
  pub program_lib : String
  pub transpiler_lib : String
  pub transpiler_options : String
  pub device : String
  pub device_lib : String

pub record TranspileReply : Type 0 where
  pub status : ℤ
  pub transpiled_program : String
  pub virtual_physical_mapping : String
  pub stats : String

pub record Client : Type 0 where
  pub transpile : TranspileRequest → Outcome Fault TranspileReply
  pub marshal_options : Option String → Outcome Fault String
  pub device_info_spec_json : String
  -- the object `qubit_mapping` of a text, and the text of such an object
  pub decode_qubits : String → Outcome Fault (Dict Bytes ℤ)
  pub encode_qubits : Dict Bytes ℤ → Outcome Fault String

-- The status of a reply: 0 and 1, and any other.
pub data ReplyStatus : Type 0 where
  transpiled not_transpiled status_unknown : ReplyStatus

unfoldable pub reply_status : ℤ → ReplyStatus
reply_status (pos n) =
    if n == 0 then transpiled else if n == 1 then not_transpiled else status_unknown
reply_status (negsuc n) = status_unknown

unfoldable pub transpile_request : Client → JobData → Outcome Fault TranspileRequest
transpile_request c jd = or_panic jd.transpiler >>= λ t. or_panic t.transpiler_lib >>= λ lib.
    c.marshal_options t.transpiler_options >>= λ options. ok (record {
      request_id = jd.id;
      program = jd.qasm;
      program_lib = "openqasm3";
      transpiler_lib = lib;
      transpiler_options = options;
      device = c.device_info_spec_json;
      device_lib = "oqtopus";
    })

-- `toVirtualPhysicalMappingFromString`.
unfoldable pub to_virtual_physical : Client → String → Outcome Fault String
to_virtual_physical c text = c.decode_qubits text >>= c.encode_qubits

-- The loop of `toPhysicalVirtualMappingFromString`, on the mapping so far.
unfoldable pub physical_virtual_from : Dict ℕ ℕ → Dict Bytes ℤ → Outcome Fault (Dict ℕ ℕ)
unfolding parse_uint to_uint32
physical_virtual_from pvm [] = ok pvm
physical_virtual_from pvm ((k, v) ∷ m) = elim (parse_uint k) [
  | none ↦ err invalid_key
  | some num ↦ physical_virtual_from (insert (to_uint32 v) num pvm) m
]

unfoldable pub to_physical_virtual : Client → String → Outcome Fault (Dict ℕ ℕ)
unfolding physical_virtual_from
to_physical_virtual c text = c.decode_qubits text >>= physical_virtual_from []

-- A write through the pointer to the transpiler's information.
unfoldable pub write_info : (TranspilerInfo → TranspilerInfo) → JobData → Option JobData
write_info f jd = elim jd.result.transpiler_info [
  | none ↦ none
  | some ti ↦ some (record jd { result = record (jd.result) { transpiler_info = some (f ti) } })
]

-- The last lines of `Transpile`, with the physical to virtual mapping.
unfoldable pub write_physical_virtual : TranspileReply → Dict ℕ ℕ → JobData → Call JobData
unfolding write_info
write_physical_virtual r pvm jd =
    elim (write_info (λ ti. record ti { physical_virtual_mapping = pvm; stats_raw = some r.stats })
      jd) [ none ↦ Call.panicked jd | some d ↦ done d ]

-- From the second conversion of the mapping on.
unfoldable pub write_mappings : Client → TranspileReply → String → JobData → Call JobData
unfolding write_info to_physical_virtual write_physical_virtual
write_mappings c r vpm jd =
    elim (write_info (λ ti. record ti { virtual_physical_mapping_raw = some vpm }) jd) [
      | none ↦ Call.panicked jd
      | some d ↦ elim (to_physical_virtual c r.virtual_physical_mapping) [
        | err e ↦ Call.failed e d
        | panic ↦ Call.panicked d
        | ok pvm ↦ write_physical_virtual r pvm d
      ]
    ]

-- What a reply that is not refused does to the job.
unfoldable pub take_reply : Client → TranspileReply → JobData → Call JobData
unfolding to_virtual_physical write_mappings
take_reply c r jd =
    let jd1 = record jd { transpiled_qasm = r.transpiled_program } in
    elim (to_virtual_physical c r.virtual_physical_mapping) [
      | err e ↦ Call.failed e jd1
      | panic ↦ Call.panicked jd1
      | ok vpm ↦ write_mappings c r vpm jd1
    ]

-- `Transpile`: an unknown status is only logged.
unfoldable pub transpile : Client → JobData → Call JobData
unfolding transpile_request take_reply reply_status
transpile c jd = elim (transpile_request c jd >>= c.transpile) [
  | err e ↦ Call.failed e jd
  | panic ↦ Call.panicked jd
  | ok r ↦ elim (reply_status r.status) [
    | transpiled ↦ take_reply c r jd
    | not_transpiled ↦ Call.failed transpile_failed jd
    | status_unknown ↦ take_reply c r jd
  ]
]
