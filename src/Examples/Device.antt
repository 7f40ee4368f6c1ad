-- ===== src/Examples/Device.antt =====
-- Circuits, statements and the device's agent.
use oqtopus_engine.Prelude.{true, false, none, some, List, [], ◌∷◌, ok, ◌++◌, ◌≡◌, refl, ◌↔◌}
use oqtopus_engine.Prelude.Int.{pos}
use oqtopus_engine.Qpu.Validate.{Parser, parsed, circuit_validate}
use oqtopus_engine.Qpu.Validate.Passed.{IsValid, circuit_validate-eq-ok}
use oqtopus_engine.Core.Device.{DeviceInfo, available}
use oqtopus_engine.Qpu.Circuit.{
  CircuitIr, Event, enter_program, new_circuit_ir, walk, handle, exit_quantum, exit_classical,
  number_bits, classical_declaration, pending_classical, enter_classical_declaration,
  exit_classical_declaration, quantum_declaration, pending_quantum, enter_version,
  enter_quantum_declaration, enter_designator, exit_quantum_declaration,
}
use oqtopus_engine.Qpu.Circuit.Registers.{IsConsistent, new_circuit_ir-IsConsistent}
use oqtopus_engine.Qpu.Circuit.Designators.{undesignated_declaration}
use oqtopus_engine.Qpu.Filter.{QasmSupport}
use oqtopus_engine.Qpu.Gateway.{Agent, Services, call_device_api_on_change}
use oqtopus_engine.Qpu.Gateway.Informed.{Informed, call_device_api_on_change-Informed}
use oqtopus_engine.Qpu.Gateway.Changes.{refused_update_forgotten}

-- "OPENQASM 3; qubit[2] q; qubit r;".
abbrev program : List Event
program =
    enter_version "3"
    ∷ enter_quantum_declaration "q"
    ∷ enter_designator (some (pos 2))
    ∷ exit_quantum_declaration
    ∷ enter_quantum_declaration "r"
    ∷ exit_quantum_declaration
    ∷ []

-- The circuit that it gives, in which `r` has two qubits as well.
abbrev circuit : CircuitIr
circuit = record {
  program_ir = record {
    version = "3";
    statements = quantum_declaration "q" (pos 2) ∷ quantum_declaration "r" (pos 2) ∷ [];
    qubit_count = 4;
    qubit_abs_num = (("q", 0), 0) ∷ (("q", 1), 1) ∷ (("r", 0), 2) ∷ (("r", 1), 3) ∷ [];
    bit_count = 0;
    bit_abs_num = [];
  };
  tmp_statement_ir = pending_quantum "r";
  tmp_designator = pos 2;
  tmp_qcbit_identifiers = [];
  tmp_measure_expression_ir = record { name = ""; index = pos 0 };
  tmp_expression_list = "";
}

program_run : new_circuit_ir program ≡ ok circuit
unfolding new_circuit_ir walk handle exit_quantum number_bits enter_program
program_run = refl

new_circuit_ir-IsConsistent_example : IsConsistent circuit.program_ir
new_circuit_ir-IsConsistent_example = new_circuit_ir-IsConsistent program circuit program_run

-- "OPENQASM 3; qubit[2] q; bit[3] b;".
abbrev two_registers : List Event
two_registers =
    enter_quantum_declaration "q"
    ∷ enter_designator (some (pos 2))
    ∷ exit_quantum_declaration
    ∷ enter_classical_declaration "b"
    ∷ enter_designator (some (pos 3))
    ∷ exit_classical_declaration
    ∷ []

abbrev two_registers_circuit : CircuitIr
two_registers_circuit = record {
  program_ir = record {
    version = "";
    statements = quantum_declaration "q" (pos 2) ∷ classical_declaration "b" (pos 3) ∷ [];
    qubit_count = 2;
    qubit_abs_num = (("q", 0), 0) ∷ (("q", 1), 1) ∷ [];
    bit_count = 3;
    bit_abs_num = (("b", 0), 0) ∷ (("b", 1), 1) ∷ (("b", 2), 2) ∷ [];
  };
  tmp_statement_ir = pending_classical "b";
  tmp_designator = pos 3;
  tmp_qcbit_identifiers = [];
  tmp_measure_expression_ir = record { name = ""; index = pos 0 };
  tmp_expression_list = "";
}

two_registers_run : new_circuit_ir two_registers ≡ ok two_registers_circuit
unfolding new_circuit_ir walk handle exit_quantum exit_classical number_bits enter_program
two_registers_run = refl

-- "qubit s;" after it has the size of the bits.
undesignated_declaration_example :
    (d : CircuitIr) × (new_circuit_ir
        (two_registers ++ enter_quantum_declaration "s" ∷ exit_quantum_declaration ∷ [])
      ≡ ok d)
    × (d.program_ir.qubit_count ≡ 5)
undesignated_declaration_example =
    undesignated_declaration "s" two_registers two_registers_circuit two_registers_run

-- The name "Ga" is allowed, so the statement "g_a" passes; the deny list is not enabled.
abbrev support : QasmSupport
support = record {
  allow_list = record { enabled = true; statements = (71 ∷ 97 ∷ []) ∷ [] };
  deny_list = record { enabled = false; statements = (103 ∷ 97 ∷ []) ∷ [] };
}

abbrev device : DeviceInfo
device = record {
  device_name = "dev";
  provider_name = "lab";
  type = "QPU";
  status = available;
  max_qubits = pos 64;
  max_shots = pos 10000;
  device_info_spec_json = "{}";
  calibrated_at = "yesterday";
}

-- A parser that reads the same circuit from every text.
abbrev one_circuit : Parser
one_circuit =
    λ q. ([], parsed (record { statements = (103 ∷ 95 ∷ 97 ∷ []) ∷ []; events = program }))

circuit_validate-eq-ok_example :
    (circuit_validate one_circuit support device "qubit[2] r; g_a r;" ≡ ok tt)
    ↔ IsValid one_circuit support device "qubit[2] r; g_a r;"
circuit_validate-eq-ok_example =
    circuit_validate-eq-ok one_circuit support device "qubit[2] r; g_a r;"

-- An API that takes every request, and a clock that cannot read the time of the calibration.
abbrev services : Services
services = record { parse_time = λ t. none; accepts = λ r. true }

abbrev fresh : Agent
fresh = record { last_device_info = none; requests = [] }

call_device_api_on_change-Informed_example :
    Informed services device fresh (call_device_api_on_change services device fresh)
call_device_api_on_change-Informed_example =
    call_device_api_on_change-Informed services device fresh

refused_update_forgotten_example :
    call_device_api_on_change services device (call_device_api_on_change services device fresh)
    ≡ call_device_api_on_change services device fresh
refused_update_forgotten_example = refused_update_forgotten services services device fresh refl refl
