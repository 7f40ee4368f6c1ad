-- ===== src/Qpu/Circuit/Designators.antt =====
-- The size that a declaration without a designator gets.
use oqtopus_engine.Prelude.{
  ◌+◌, String, none, some, List, [], ◌∷◌, Outcome, ok, err, panic, ◌>>=◌, or_panic, get_elem?, ◌≡◌,
  ap, subst, refl, ◌++◌, ◌∙◌,
}
use oqtopus_engine.Prelude.Dict.{pair_eq}
use oqtopus_engine.Prelude.Int.{ℤ, pos}
use oqtopus_engine.Core.Fault.{Fault}
use oqtopus_engine.Qpu.Circuit.{
  CircuitIr, Event, Pending, rounds, exit_quantum, exit_classical, exit_gate, exit_assign, handle,
  walk, enter_program, new_circuit_ir, enter_quantum_declaration, exit_quantum_declaration,
  enter_designator, pending_quantum, pending_classical, pending_gate, pending_assignment,
  enter_version, enter_classical_declaration, exit_classical_declaration, enter_gate_call,
  exit_gate_call, enter_gate_operand_list, enter_expression_list, exit_expression_list,
  enter_indexed_identifier, enter_assignment, exit_measure_expression, exit_assignment,
}
use oqtopus_engine.Qpu.Circuit.Registers.{number_bits-count, new_circuit_ir-eq-ok}

-- The size after a call: a designator replaces the one before it, of whichever kind its declaration is.
abbrev pub designated : ℤ → Event → ℤ
designated before (enter_designator (some n)) = n
designated before _ = before

abbrev pub last_designator : ℤ → List Event → ℤ
last_designator before [] = before
last_designator before (e ∷ es) = last_designator (designated before e) es

-- A call that returns leaves this size behind.
abbrev HoldsAt : ℤ → Outcome Fault CircuitIr → Type 0
HoldsAt n (ok c) = c.tmp_designator ≡ n
HoldsAt n (err e) = Unit {0}
HoldsAt n panic = Unit {0}

held {ℓ} :
    {A : Type ℓ} (n : ℤ) (r : Outcome Fault A) (f : A → Outcome Fault CircuitIr)
    → ((a : A) → HoldsAt n (f a))
    → HoldsAt n (r >>= f)
held n (ok a) f h = h a
held n (err e) f h = tt
held n panic f h = tt

exit_quantum-HoldsAt : (s : Pending) (c : CircuitIr) → HoldsAt c.tmp_designator (exit_quantum s c)
unfolding exit_quantum
exit_quantum-HoldsAt (pending_quantum name) c = refl
exit_quantum-HoldsAt _ c = tt

exit_classical-HoldsAt :
    (s : Pending) (c : CircuitIr) → HoldsAt c.tmp_designator (exit_classical s c)
unfolding exit_classical
exit_classical-HoldsAt (pending_classical name) c = refl
exit_classical-HoldsAt _ c = tt

exit_gate-HoldsAt : (s : Pending) (c : CircuitIr) → HoldsAt c.tmp_designator (exit_gate s c)
unfolding exit_gate
exit_gate-HoldsAt (pending_gate name) c = refl
exit_gate-HoldsAt _ c = tt

exit_assign-HoldsAt : (s : Pending) (c : CircuitIr) → HoldsAt c.tmp_designator (exit_assign s c)
unfolding exit_assign
exit_assign-HoldsAt pending_assignment c =
    held c.tmp_designator (or_panic (get_elem? c.tmp_qcbit_identifiers 0)) _ (λ left. refl)
exit_assign-HoldsAt _ c = tt

handle-HoldsAt : (e : Event) (c : CircuitIr) → HoldsAt (designated c.tmp_designator e) (handle e c)
unfolding handle
handle-HoldsAt (enter_version v) c = refl
handle-HoldsAt (enter_quantum_declaration name) c = refl
handle-HoldsAt exit_quantum_declaration c = exit_quantum-HoldsAt c.tmp_statement_ir c
handle-HoldsAt (enter_designator (some n)) c = refl
handle-HoldsAt (enter_designator none) c = tt
handle-HoldsAt (enter_classical_declaration name) c = refl
handle-HoldsAt exit_classical_declaration c = exit_classical-HoldsAt c.tmp_statement_ir c
handle-HoldsAt (enter_gate_call name) c = refl
handle-HoldsAt exit_gate_call c = exit_gate-HoldsAt c.tmp_statement_ir c
handle-HoldsAt enter_gate_operand_list c = refl
handle-HoldsAt enter_expression_list c = refl
handle-HoldsAt (exit_expression_list text) c = refl
handle-HoldsAt (enter_indexed_identifier name i) c =
    held c.tmp_designator (or_panic i) _ (λ ind. refl)
handle-HoldsAt enter_assignment c = refl
handle-HoldsAt exit_measure_expression c =
    held c.tmp_designator (or_panic (get_elem? c.tmp_qcbit_identifiers 1)) _ (λ q. refl)
handle-HoldsAt exit_assignment c = exit_assign-HoldsAt c.tmp_statement_ir c

walk-HoldsAt :
    (es : List Event) (c : CircuitIr) → HoldsAt (last_designator c.tmp_designator es) (walk es c)
unfolding walk
walk-HoldsAt [] c = refl
walk-HoldsAt (e ∷ es) c = by (handle e c) (handle-HoldsAt e c) (walk-HoldsAt es)
  where
    by :
        (o : Outcome Fault CircuitIr)
        → HoldsAt (designated c.tmp_designator e) o
        → ((d : CircuitIr) → HoldsAt (last_designator d.tmp_designator es) (walk es d))
        → HoldsAt (last_designator (designated c.tmp_designator e) es) (o >>= walk es)
    by (ok d) h k = subst (λ n. HoldsAt (last_designator n es) (walk es d)) h (k d)
    by (err x) h k = tt
    by panic h k = tt

walk-append : (es fs : List Event) (c : CircuitIr) → walk (es ++ fs) c ≡ (walk es c >>= walk fs)
unfolding walk
walk-append [] fs c = refl
walk-append (e ∷ es) fs c = by (handle e c) (walk-append es fs)
  where
    by :
        (o : Outcome Fault CircuitIr)
        → ((d : CircuitIr) → walk (es ++ fs) d ≡ (walk es d >>= walk fs))
        → (o >>= walk (es ++ fs)) ≡ ((o >>= walk es) >>= walk fs)
    by (ok d) k = k d
    by (err x) k = refl
    by panic k = refl

declared :
    (name : String) (c : CircuitIr)
    → (d : CircuitIr) × (walk (enter_quantum_declaration name ∷ exit_quantum_declaration ∷ []) c
        ≡ ok d)
      × (d.program_ir.qubit_count ≡ c.program_ir.qubit_count + rounds c.tmp_designator)
unfolding walk handle exit_quantum
declared name c = (
  _,
  refl,
  number_bits-count name (rounds c.tmp_designator) 0 c.program_ir.qubit_count
      c.program_ir.qubit_abs_num,
)

-- A quantum declaration without a designator after a program adds as many qubits as the last designator of the
-- program gave, whether that stood in a declaration of qubits or of classical bits and however many declarations ago,
-- and none if the program has no designator: no handler resets it.
pub undesignated_declaration :
    (name : String) (es : List Event) (c : CircuitIr)
    → new_circuit_ir es ≡ ok c
    → (d : CircuitIr) × (new_circuit_ir
          (es ++ enter_quantum_declaration name ∷ exit_quantum_declaration ∷ [])
        ≡ ok d)
      × (d.program_ir.qubit_count ≡ c.program_ir.qubit_count + rounds (last_designator (pos 0) es))
unfolding new_circuit_ir enter_program
undesignated_declaration name es c h =
    let run = new_circuit_ir-eq-ok es c h in
    let size : c.tmp_designator ≡ last_designator (pos 0) es =
      subst (HoldsAt (last_designator (pos 0) es)) run (walk-HoldsAt es enter_program) in
    let (d, e, n) = declared name c in
    let whole =
      walk-append es (enter_quantum_declaration name ∷ exit_quantum_declaration ∷ [])
        enter_program in
    (
      d,
      rw (new_circuit_ir, whole, run, e) refl,
      n ∙ ap (λ k. c.program_ir.qubit_count + rounds k) size,
    )
