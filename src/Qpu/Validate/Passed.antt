-- ===== src/Qpu/Validate/Passed.antt =====
-- The circuits that `circuitValidate` passes.
use oqtopus_engine.Prelude.{
  String, Bool, true, false, Outcome, ok, err, panic, ◌>>=◌, ◌≡◌, refl, str_eq, ◌↔◌, if◌then◌else◌,
  ◌∙◌, ap,
}
use oqtopus_engine.Prelude.Int.{pos, ltb_ℤ}
use oqtopus_engine.Core.Fault.{Fault, too_many_qubits}
use oqtopus_engine.Core.Device.{DeviceInfo, is_available}
use oqtopus_engine.Qpu.Circuit.{CircuitIr, new_circuit_ir, check_resource}
use oqtopus_engine.Qpu.Filter.{QasmSupport, Refusal, validate_statements}
use oqtopus_engine.Qpu.Filter.Lists.{IsSupported, validate_statements-eq-ok}
use oqtopus_engine.Qpu.Validate.{
  Circuit, Parser, ParseFault, CircuitFault, of_parser, of_statement, of_resource, no_input_qasm,
  with_fault, device_is_not_available, parse_qasm, validate_resource, circuit_validate,
}

module _ (run : Parser) (support : QasmSupport) (di : DeviceInfo) (qasm : String) where
  pub record IsValid : Type 0 where
    pub circuit : Circuit
    pub parses : parse_qasm run qasm ≡ ok circuit
    pub supported : IsSupported circuit.statements support
    pub on_device : is_available di.status ≡ true
    pub ir : CircuitIr
    pub reads : new_circuit_ir circuit.events ≡ ok ir
    pub fits : ltb_ℤ di.max_qubits (pos ir.program_ir.qubit_count) ≡ false

  Fits : Circuit → Type 0
  Fits c =
      (is_available di.status ≡ true)
      × (ir : CircuitIr) × (new_circuit_ir c.events ≡ ok ir)
      × (ltb_ℤ di.max_qubits (pos ir.program_ir.qubit_count) ≡ false)

  abbrev counted : Outcome Fault CircuitIr → Outcome Fault (Unit {0})
  counted o = o >>= λ c.
      if ltb_ℤ di.max_qubits (pos c.program_ir.qubit_count)
      then err (too_many_qubits di.max_qubits)
      else ok tt

  counted→ :
      (o : Outcome Fault CircuitIr)
      → with_fault of_resource (counted o) ≡ ok tt
      → (ir : CircuitIr) × (o ≡ ok ir)
        × (ltb_ℤ di.max_qubits (pos ir.program_ir.qubit_count) ≡ false)
  counted→ (ok ir) h = by (ltb_ℤ di.max_qubits (pos ir.program_ir.qubit_count)) refl h
    where
      by :
          (b : Bool)
          → ltb_ℤ di.max_qubits (pos ir.program_ir.qubit_count) ≡ b
          → with_fault of_resource (if b then err (too_many_qubits di.max_qubits) else ok tt)
            ≡ ok tt
          → (x : CircuitIr) × (◌≡◌ {A = Outcome Fault CircuitIr} (ok ir) (ok x))
            × (ltb_ℤ di.max_qubits (pos x.program_ir.qubit_count) ≡ false)
      by true e h = cc
      by false e h = (ir, refl, e)
  counted→ (err e) h = cc
  counted→ panic h = cc

  resource→ : (c : Circuit) → validate_resource di c ≡ ok tt → Fits c
  unfolding validate_resource check_resource Fits
  resource→ c h = by (is_available di.status) refl h
    where
      by :
          (b : Bool)
          → is_available di.status ≡ b
          → (if b
              then with_fault of_resource (check_resource c.events di.max_qubits)
              else err (device_is_not_available di.status))
            ≡ ok tt
          → Fits c
      by true e h = let (ir, i, f) = counted→ (new_circuit_ir c.events) h in (e, ir, i, f)
      by false e h = cc

  →resource : (c : Circuit) → Fits c → validate_resource di c ≡ ok tt
  unfolding validate_resource check_resource Fits
  →resource c (a, ir, r, f) = rw (a, r, f) refl

  statements→ :
      (c : Circuit) (o : Outcome Refusal (Unit {0}))
      → (with_fault of_statement o >>= λ _. validate_resource di c) ≡ ok tt
      → (o ≡ ok tt) × (validate_resource di c ≡ ok tt)
  statements→ c (ok u) h = (refl, h)
  statements→ c (err e) h = cc
  statements→ c panic h = cc

  abbrev checked : Outcome ParseFault Circuit → Outcome CircuitFault (Unit {0})
  checked o = with_fault of_parser o >>= λ c.
      with_fault of_statement (validate_statements c.statements support) >>= λ _.
      validate_resource di c

  parsed→ : (o : Outcome ParseFault Circuit) → parse_qasm run qasm ≡ o → checked o ≡ ok tt → IsValid
  unfolding Fits
  parsed→ (ok c) p h =
      let (s, r) = statements→ c (validate_statements c.statements support) h in
      let (a, ir, i, f) = resource→ c r in
      record {
        circuit = c;
        parses = p;
        supported = (validate_statements-eq-ok c.statements support).0 s;
        on_device = a;
        ir = ir;
        reads = i;
        fits = f;
      }
  parsed→ (err e) p h = cc
  parsed→ panic p h = cc

  passes→ : circuit_validate run support di qasm ≡ ok tt → IsValid
  unfolding circuit_validate
  passes→ h = by (str_eq qasm "") h
    where
      by :
          (b : Bool)
          → (if b then err (of_parser no_input_qasm) else checked (parse_qasm run qasm)) ≡ ok tt
          → IsValid
      by true h = cc
      by false h = parsed→ (parse_qasm run qasm) refl h

  -- A text that parses is not empty.
  not_empty : (c : Circuit) → parse_qasm run qasm ≡ ok c → str_eq qasm "" ≡ false
  unfolding parse_qasm
  not_empty c p = by (str_eq qasm "") _ p
    where
      by :
          (b : Bool) (rest : Outcome ParseFault Circuit)
          → (if b then err no_input_qasm else rest) ≡ ok c
          → b ≡ false
      by true rest h = cc
      by false rest h = refl

  →checked : (v : IsValid) → checked (ok v.circuit) ≡ ok tt
  unfolding Fits
  →checked v =
      ap
        (λ (o : Outcome Refusal (Unit {0})).
          with_fault of_statement o >>= λ _. validate_resource di v.circuit)
        ((validate_statements-eq-ok v.circuit.statements support).1 v.supported)
      ∙ →resource v.circuit (v.on_device, v.ir, v.reads, v.fits)

  →passes : IsValid → circuit_validate run support di qasm ≡ ok tt
  unfolding circuit_validate
  →passes v = by (str_eq qasm "") (not_empty v.circuit v.parses)
    where
      by :
          (b : Bool)
          → b ≡ false
          → (if b then err (of_parser no_input_qasm) else checked (parse_qasm run qasm)) ≡ ok tt
      by true e = cc
      by false e = ap checked v.parses ∙ →checked v

  -- `circuitValidate` passes a text exactly if it parses, the lists of statements support every statement of it, the
  -- device is available, the circuit can be read and it has at most as many qubits as the device.
  pub circuit_validate-eq-ok : (circuit_validate run support di qasm ≡ ok tt) ↔ IsValid
  circuit_validate-eq-ok = (passes→, →passes)
