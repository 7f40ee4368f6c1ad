-- ===== src/Qpu/Validate.antt =====
-- coreapp/qpu/circuit.go: `circuitValidate` and `ParseQASM`. The generated parser is a parameter.
pub mod Passed
use oqtopus_engine.Prelude.{
  ℕ, String, Bool, true, false, Option, none, some, List, [], ◌∷◌, Outcome, ok, err, panic, ◌>>=◌,
  str_eq, if◌then◌else◌,
}
use oqtopus_engine.Prelude.Int.{ℤ}
use oqtopus_engine.Prelude.Dict.{Bytes}
use oqtopus_engine.Core.Fault.{Fault}
use oqtopus_engine.Core.Device.{DeviceInfo, DeviceStatus, is_available}
use oqtopus_engine.Qpu.Circuit.{Event, check_resource}
use oqtopus_engine.Qpu.Filter.{QasmSupport, Refusal, validate_statements}

-- The rule names of the statements, and the events of a walk of the tree.
pub record Circuit : Type 0 where
  pub statements : List Bytes
  pub events : List Event

-- A call of the listener `qasmErrorListener`.
pub data Report : Type 0 where
  syntax_error : ℕ → ℕ → String → Report
  report_ambiguity report_attempting_full_context report_context_sensitivity : Report

pub data ParseFault : Type 0 where
  no_input_qasm canceled_to_parse failed_to_parse : ParseFault
  reported : Report → ParseFault

-- How a run of the parser ends: with a tree, or with a panic, of its own kind or another.
pub data ParserEnd : Type 0 where
  parsed : Circuit → ParserEnd
  parse_cancellation other_panic : ParserEnd

-- A run of the parser, with the calls of the listener.
abbrev pub Parser : Type 0
Parser = String → List Report × ParserEnd

-- The listener's buffer, in which a report replaces the one before it.
unfoldable pub msg_buffer : Option Report → List Report → Option Report
msg_buffer m [] = m
msg_buffer m (r ∷ rs) = msg_buffer (some r) rs

-- The error of a parser that panicked.
abbrev pub user_error : Option Report → ParseFault → ParseFault
user_error (some r) f = reported r
user_error none f = f

unfoldable pub parse_qasm : Parser → String → Outcome ParseFault Circuit
unfolding msg_buffer
parse_qasm run qasm =
    if str_eq qasm ""
    then err no_input_qasm
    else elim (run qasm).1 as (λ _. Outcome ParseFault Circuit) [
      | parsed c ↦ ok c
      | parse_cancellation ↦ err (user_error (msg_buffer none (run qasm).0) canceled_to_parse)
      | other_panic ↦ err (user_error (msg_buffer none (run qasm).0) failed_to_parse)
    ]

-- The errors of `circuitValidate`.
pub data CircuitFault : Type 0 where
  of_parser : ParseFault → CircuitFault
  of_statement : Refusal → CircuitFault
  device_is_not_available : DeviceStatus → CircuitFault
  of_resource : Fault → CircuitFault

abbrev pub with_fault :
    {E : Type 0} → {A : Type 0} → (E → CircuitFault) → Outcome E A → Outcome CircuitFault A
with_fault f (ok a) = ok a
with_fault f (err e) = err (f e)
with_fault f panic = panic

-- The check of the qubits, if the device is available.
unfoldable pub validate_resource : DeviceInfo → Circuit → Outcome CircuitFault (Unit {0})
unfolding check_resource
validate_resource di c =
    if is_available di.status
    then with_fault of_resource (check_resource c.events di.max_qubits)
    else err (device_is_not_available di.status)

unfoldable pub circuit_validate :
    Parser → QasmSupport → DeviceInfo → String → Outcome CircuitFault (Unit {0})
unfolding parse_qasm validate_statements validate_resource
circuit_validate run support di qasm =
    if str_eq qasm ""
    then err (of_parser no_input_qasm)
    else with_fault of_parser (parse_qasm run qasm) >>= λ c.
        with_fault of_statement (validate_statements c.statements support) >>= λ _.
        validate_resource di c
