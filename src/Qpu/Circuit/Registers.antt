-- ===== src/Qpu/Circuit/Registers.antt =====
-- The numbers that the listener gives to the bits of the registers.
use oqtopus_engine.Prelude.{
  ℕ, zero, suc, ◌+◌, ◌<◌, String, some, List, [], ◌∷◌, Outcome, ok, err, panic, ◌>>=◌, or_panic,
  get_elem?, ◌≡◌, arith, subst,
}
use oqtopus_engine.Prelude.Dict.{Dict, lookup, insert, pair_eq, pair_beq_iff, lookup-insert}
use oqtopus_engine.Core.Fault.{Fault, failed_to_generate_ir}
use oqtopus_engine.Qpu.Circuit.{
  ProgramIr, CircuitIr, Event, Pending, number_bits, rounds, exit_quantum, exit_classical,
  exit_gate, exit_assign, handle, walk, enter_program, new_circuit_ir, enter_quantum_declaration,
  exit_quantum_declaration, enter_designator, pending_quantum, pending_classical, pending_gate,
  pending_assignment, enter_version, enter_classical_declaration, exit_classical_declaration,
  enter_gate_call, exit_gate_call, enter_gate_operand_list, enter_expression_list,
  exit_expression_list, enter_indexed_identifier, enter_assignment, exit_measure_expression,
  exit_assignment,
}

-- Every number given lies below the count, and no two bits have the same number.
pub record IsNumbered (table : Dict (String × ℕ) ℕ) (count : ℕ) : Type 0 where
  pub below : (k : String × ℕ) (n : ℕ) → lookup k table ≡ some n → n < count
  pub distinct :
      (j k : String × ℕ) (n : ℕ) → lookup j table ≡ some n → lookup k table ≡ some n → j ≡ k

insert-IsNumbered :
    (b : String × ℕ) (table : Dict (String × ℕ) ℕ) (count : ℕ)
    → IsNumbered table count
    → IsNumbered (insert b count table) (count + 1)
insert-IsNumbered b table count h = record {
  below = λ k n e. ground (arith, lookup-insert b k count table, h.below k n);
  distinct = λ j k n e f. ground (
    arith,
    lookup-insert b j count table,
    lookup-insert b k count table,
    pair_beq_iff b j,
    pair_beq_iff b k,
    h.below j n,
    h.below k n,
    h.distinct j k n,
  );
}

number_bits-IsNumbered :
    (name : String) (n i count : ℕ) (table : Dict (String × ℕ) ℕ)
    → IsNumbered table count
    → IsNumbered (number_bits name n i count table).0 (number_bits name n i count table).1
unfolding number_bits
number_bits-IsNumbered name zero i count table h = h
number_bits-IsNumbered name (suc n) i count table h =
    number_bits-IsNumbered name n (i + 1) (count + 1) (insert (name, i) count table)
      (insert-IsNumbered (name, i) table count h)

pub number_bits-count :
    (name : String) (n i count : ℕ) (table : Dict (String × ℕ) ℕ)
    → (number_bits name n i count table).1 ≡ count + n
unfolding number_bits
number_bits-count name zero i count table = omega arith
number_bits-count name (suc n) i count table =
    omega (arith, number_bits-count name n (i + 1) (count + 1) (insert (name, i) count table))

-- Both tables of a program are numbered.
pub record IsConsistent (p : ProgramIr) : Type 0 where
  pub qubits : IsNumbered p.qubit_abs_num p.qubit_count
  pub bits : IsNumbered p.bit_abs_num p.bit_count

abbrev Keeps : Outcome Fault CircuitIr → Type 0
Keeps (ok c) = IsConsistent c.program_ir
Keeps (err e) = Unit {0}
Keeps panic = Unit {0}

bind-Keeps {ℓ} :
    {A : Type ℓ} (r : Outcome Fault A) (f : A → Outcome Fault CircuitIr)
    → ((a : A) → Keeps (f a))
    → Keeps (r >>= f)
bind-Keeps (ok a) f h = h a
bind-Keeps (err e) f h = tt
bind-Keeps panic f h = tt

exit_quantum-Keeps :
    (s : Pending) (c : CircuitIr) → IsConsistent c.program_ir → Keeps (exit_quantum s c)
unfolding exit_quantum
exit_quantum-Keeps (pending_quantum name) c h = record {
  qubits =
      number_bits-IsNumbered name (rounds c.tmp_designator) 0 c.program_ir.qubit_count
        c.program_ir.qubit_abs_num h.qubits;
  bits = h.bits;
}
exit_quantum-Keeps _ c h = tt

exit_classical-Keeps :
    (s : Pending) (c : CircuitIr) → IsConsistent c.program_ir → Keeps (exit_classical s c)
unfolding exit_classical
exit_classical-Keeps (pending_classical name) c h = record {
  qubits = h.qubits;
  bits =
      number_bits-IsNumbered name (rounds c.tmp_designator) 0 c.program_ir.bit_count
        c.program_ir.bit_abs_num h.bits;
}
exit_classical-Keeps _ c h = tt

exit_gate-Keeps : (s : Pending) (c : CircuitIr) → IsConsistent c.program_ir → Keeps (exit_gate s c)
unfolding exit_gate
exit_gate-Keeps (pending_gate name) c h = record { qubits = h.qubits; bits = h.bits }
exit_gate-Keeps _ c h = tt

exit_assign-Keeps :
    (s : Pending) (c : CircuitIr) → IsConsistent c.program_ir → Keeps (exit_assign s c)
unfolding exit_assign
exit_assign-Keeps pending_assignment c h =
    bind-Keeps (or_panic (get_elem? c.tmp_qcbit_identifiers 0)) _
      (λ left. record { qubits = h.qubits; bits = h.bits })
exit_assign-Keeps _ c h = tt

handle-Keeps : (e : Event) (c : CircuitIr) → IsConsistent c.program_ir → Keeps (handle e c)
unfolding handle
handle-Keeps (enter_version v) c h = record { qubits = h.qubits; bits = h.bits }
handle-Keeps (enter_quantum_declaration name) c h = h
handle-Keeps exit_quantum_declaration c h = exit_quantum-Keeps c.tmp_statement_ir c h
handle-Keeps (enter_designator n) c h = bind-Keeps (or_panic n) _ (λ des. h)
handle-Keeps (enter_classical_declaration name) c h = h
handle-Keeps exit_classical_declaration c h = exit_classical-Keeps c.tmp_statement_ir c h
handle-Keeps (enter_gate_call name) c h = h
handle-Keeps exit_gate_call c h = exit_gate-Keeps c.tmp_statement_ir c h
handle-Keeps enter_gate_operand_list c h = h
handle-Keeps enter_expression_list c h = h
handle-Keeps (exit_expression_list text) c h = h
handle-Keeps (enter_indexed_identifier name i) c h = bind-Keeps (or_panic i) _ (λ ind. h)
handle-Keeps enter_assignment c h = h
handle-Keeps exit_measure_expression c h =
    bind-Keeps (or_panic (get_elem? c.tmp_qcbit_identifiers 1)) _ (λ q. h)
handle-Keeps exit_assignment c h = exit_assign-Keeps c.tmp_statement_ir c h

then-Keeps :
    (r : Outcome Fault CircuitIr) (f : CircuitIr → Outcome Fault CircuitIr)
    → ((c : CircuitIr) → IsConsistent c.program_ir → Keeps (f c))
    → Keeps r
    → Keeps (r >>= f)
then-Keeps (ok c) f k h = k c h
then-Keeps (err e) f k h = tt
then-Keeps panic f k h = tt

walk-Keeps : (es : List Event) (c : CircuitIr) → IsConsistent c.program_ir → Keeps (walk es c)
unfolding walk
walk-Keeps [] c h = h
walk-Keeps (e ∷ es) c h = then-Keeps (handle e c) (walk es) (walk-Keeps es) (handle-Keeps e c h)

recovered :
    (r : Outcome Fault CircuitIr) (c : CircuitIr)
    → elim r [ ok d ↦ ok d | err e ↦ err failed_to_generate_ir | panic ↦ err failed_to_generate_ir ]
      ≡ ok c
    → r ≡ ok c
recovered (ok d) c e = e
recovered (err d) c e = ground arith
recovered panic c e = ground arith

pub new_circuit_ir-eq-ok :
    (es : List Event) (c : CircuitIr) → new_circuit_ir es ≡ ok c → walk es enter_program ≡ ok c
unfolding new_circuit_ir
new_circuit_ir-eq-ok es c e = recovered (walk es enter_program) c e

-- Where `new_circuit_ir` succeeds, no two qubits of the program have the same number, and neither have two
-- classical bits: every number given lies below the count of its kind.
pub new_circuit_ir-IsConsistent :
    (es : List Event) (c : CircuitIr) → new_circuit_ir es ≡ ok c → IsConsistent c.program_ir
unfolding enter_program
new_circuit_ir-IsConsistent es c e = subst Keeps (new_circuit_ir-eq-ok es c e) (
    walk-Keeps es enter_program (record {
      qubits = record { below = λ k n f. ground arith; distinct = λ j k n f g. ground arith };
      bits = record { below = λ k n f. ground arith; distinct = λ j k n f g. ground arith };
    }))
