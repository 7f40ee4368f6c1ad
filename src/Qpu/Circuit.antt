-- ===== src/Qpu/Circuit.antt =====
-- coreapp/qpu/ir.go: the listener that builds the intermediate representation while ANTLR walks the
-- parse tree. The walk is the list of the calls that it makes, an `Event` each, with what the handler
-- reads from its context; `none` for a number that `strconv.Atoi` rejects.
pub mod Registers
pub mod Designators
use oqtopus_engine.Prelude.{
  ℕ, zero, suc, ◌+◌, String, Option, none, some, List, [], ◌∷◌, ◌++◌, Outcome, ok, err, panic,
  ◌>>=◌, or_panic, str_eq, ◌==◌, get_elem?, ltb, if◌then◌else◌,
}
use oqtopus_engine.Prelude.Int.{ℤ, pos, negsuc, ltb_ℤ}
use oqtopus_engine.Prelude.Dict.{Dict, insert, pair_eq}
use oqtopus_engine.Core.Fault.{Fault, failed_to_generate_ir, too_many_qubits}

pub record QcbitIdentifier : Type 0 where
  pub name : String
  pub index : ℤ

pub data StatementIr : Type 0 where
  quantum_declaration : String → ℤ → StatementIr
  classical_declaration : String → ℤ → StatementIr
  gate_call : String → List QcbitIdentifier → String → StatementIr
  assignment : QcbitIdentifier → QcbitIdentifier → StatementIr

-- The statement that is being built: the value of `tmpStatementIR`, nil at first.
pub data Pending : Type 0 where
  nothing : Pending
  pending_quantum : String → Pending
  pending_classical : String → Pending
  pending_gate : String → Pending
  pending_assignment : Pending

-- A bit is the name of its register and an index, which is never negative where bits are numbered.
pub record ProgramIr : Type 0 where
  pub version : String
  pub statements : List StatementIr
  pub qubit_count : ℕ
  pub qubit_abs_num : Dict (String × ℕ) ℕ
  pub bit_count : ℕ
  pub bit_abs_num : Dict (String × ℕ) ℕ

pub record CircuitIr : Type 0 where
  pub program_ir : ProgramIr
  pub tmp_statement_ir : Pending
  pub tmp_designator : ℤ
  pub tmp_qcbit_identifiers : List QcbitIdentifier
  pub tmp_measure_expression_ir : QcbitIdentifier
  pub tmp_expression_list : String

pub data Event : Type 0 where
  enter_version : String → Event
  enter_quantum_declaration : String → Event
  exit_quantum_declaration : Event
  enter_designator : Option ℤ → Event
  enter_classical_declaration : String → Event
  exit_classical_declaration : Event
  enter_gate_call : String → Event
  exit_gate_call : Event
  enter_gate_operand_list : Event
  enter_expression_list : Event
  exit_expression_list : String → Event
  enter_indexed_identifier : String → Option ℤ → Event
  enter_assignment : Event
  exit_measure_expression : Event
  exit_assignment : Event

-- The state after `EnterProgram`, the first call of a walk.
unfoldable pub enter_program : CircuitIr
enter_program = record {
  program_ir = record {
    version = "";
    statements = [];
    qubit_count = 0;
    qubit_abs_num = [];
    bit_count = 0;
    bit_abs_num = [];
  };
  tmp_statement_ir = nothing;
  tmp_designator = pos 0;
  tmp_qcbit_identifiers = [];
  tmp_measure_expression_ir = record { name = ""; index = pos 0 };
  tmp_expression_list = "";
}

-- The loop of the two `Exit…DeclarationStatement`: `n` more bits of the register, from the bit `i`, get
-- the numbers from `count` on. The table and the new count.
unfoldable pub number_bits : String → ℕ → ℕ → ℕ → Dict (String × ℕ) ℕ → Dict (String × ℕ) ℕ × ℕ
number_bits name zero i count table = (table, count)
number_bits name (suc n) i count table =
    number_bits name n (i + 1) (count + 1) (insert (name, i) count table)

-- How often `for i := 0; i < designator; i++` runs.
abbrev pub rounds : ℤ → ℕ
rounds (pos n) = n
rounds (negsuc n) = 0

-- `append(c.ProgramIR.Statements, s)`.
add_statement : StatementIr → ProgramIr → ProgramIr
add_statement s p = record p { statements = p.statements ++ s ∷ [] }

-- `ExitQuantumDeclarationStatement`; a statement of another type fails the type assertion.
unfoldable pub exit_quantum : Pending → CircuitIr → Outcome Fault CircuitIr
unfolding number_bits add_statement
exit_quantum (pending_quantum name) c =
    let p = c.program_ir in
    let (table, count) =
      number_bits name (rounds c.tmp_designator) 0 p.qubit_count p.qubit_abs_num in
    ok (record c {
      program_ir =
          add_statement (quantum_declaration name c.tmp_designator)
            (record p { qubit_abs_num = table; qubit_count = count });
    })
exit_quantum _ c = panic

unfoldable pub exit_classical : Pending → CircuitIr → Outcome Fault CircuitIr
unfolding number_bits add_statement
exit_classical (pending_classical name) c =
    let p = c.program_ir in
    let (table, count) = number_bits name (rounds c.tmp_designator) 0 p.bit_count p.bit_abs_num in
    ok (record c {
      program_ir =
          add_statement (classical_declaration name c.tmp_designator)
            (record p { bit_abs_num = table; bit_count = count });
    })
exit_classical _ c = panic

unfoldable pub exit_gate : Pending → CircuitIr → Outcome Fault CircuitIr
unfolding add_statement
exit_gate (pending_gate name) c = ok (record c {
  program_ir =
      add_statement (gate_call name c.tmp_qcbit_identifiers c.tmp_expression_list) c.program_ir;
})
exit_gate _ c = panic

unfoldable pub exit_assign : Pending → CircuitIr → Outcome Fault CircuitIr
unfolding add_statement
exit_assign pending_assignment c = or_panic (get_elem? c.tmp_qcbit_identifiers 0) >>= λ left.
    ok (record c {
      program_ir = add_statement (assignment left c.tmp_measure_expression_ir) c.program_ir;
    })
exit_assign _ c = panic

-- One call of the listener.
unfoldable pub handle : Event → CircuitIr → Outcome Fault CircuitIr
unfolding exit_quantum exit_classical exit_gate exit_assign
handle (enter_version v) c = ok (record c { program_ir = record (c.program_ir) { version = v } })
handle (enter_quantum_declaration name) c =
    ok (record c { tmp_statement_ir = pending_quantum name })
handle exit_quantum_declaration c = exit_quantum c.tmp_statement_ir c
handle (enter_designator n) c = or_panic n >>= λ des. ok (record c { tmp_designator = des })
handle (enter_classical_declaration name) c =
    ok (record c { tmp_statement_ir = pending_classical name })
handle exit_classical_declaration c = exit_classical c.tmp_statement_ir c
handle (enter_gate_call name) c = ok (record c { tmp_statement_ir = pending_gate name })
handle exit_gate_call c = exit_gate c.tmp_statement_ir c
handle enter_gate_operand_list c = ok (record c { tmp_qcbit_identifiers = [] })
handle enter_expression_list c = ok (record c { tmp_expression_list = "" })
handle (exit_expression_list text) c = ok (record c { tmp_expression_list = text })
handle (enter_indexed_identifier name i) c = or_panic i >>= λ ind. ok (record c {
  tmp_qcbit_identifiers = c.tmp_qcbit_identifiers ++ record { name = name; index = ind } ∷ [];
})
handle enter_assignment c =
    ok (record c { tmp_statement_ir = pending_assignment; tmp_qcbit_identifiers = [] })
handle exit_measure_expression c = or_panic (get_elem? c.tmp_qcbit_identifiers 1) >>= λ q.
    ok (record c { tmp_measure_expression_ir = q })
handle exit_assignment c = exit_assign c.tmp_statement_ir c

-- The walk, call by call.
unfoldable pub walk : List Event → CircuitIr → Outcome Fault CircuitIr
unfolding handle
walk [] c = ok c
walk (e ∷ es) c = handle e c >>= walk es

-- `NewCircuitIR`: a panic of the walk is recovered, and becomes an error.
unfoldable pub new_circuit_ir : List Event → Outcome Fault CircuitIr
unfolding walk enter_program
new_circuit_ir es = elim (walk es enter_program) [
  | ok c ↦ ok c
  | err e ↦ err failed_to_generate_ir
  | panic ↦ err failed_to_generate_ir
]

-- `checkResource` (coreapp/qpu/circuit.go).
unfoldable pub check_resource : List Event → ℤ → Outcome Fault (Unit {0})
unfolding new_circuit_ir
check_resource es qubit_number = new_circuit_ir es >>= λ c.
    if ltb_ℤ qubit_number (pos c.program_ir.qubit_count)
    then err (too_many_qubits qubit_number)
    else ok tt
