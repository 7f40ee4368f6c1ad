-- ===== src/ResultDivider/Swap.antt =====
-- Swapping puts the bit of each virtual qubit in its place.
use oqtopus_engine.Prelude.{
  ℕ, suc, ◌+◌, ◌-◌, ◌≤◌, ◌<◌, Bool, true, false, none, some, List, [], ◌∷◌, Outcome, ok, err, panic,
  ltb, leb, ◌==◌, ==_iff, if◌then◌else◌, length, length-set, length-replicate, replicate, get_elem?,
  get_elem?-set_self, get_elem?-set_ne, get_elem?-some, set, ◌≡◌, ◌≢◌, refl, arith, ap, sym, ◌∙◌,
  subst,
}
use oqtopus_engine.Prelude.Dict.{Bytes, lookup, nat_eq}
use oqtopus_engine.Core.Fault.{Fault}
use oqtopus_engine.Core.Mapping.{VirtualPhysicalMappingMap}
use oqtopus_engine.ResultDivider.{physical_qubits_of, swap_loop, swap_bits}
use oqtopus_engine.ResultDivider.Fill.{max_physical, fill_missing_digits}
use oqtopus_engine.ResultDivider.Fill.Slots.{slot, IsFilled, fill_missing_digits-IsFilled}

-- The virtual qubits of the mapping lie below `n`, and each stands in it once.
abbrev pub IsMapping : ℕ → VirtualPhysicalMappingMap → Type 0
IsMapping n [] = Unit {0}
IsMapping n ((v, p) ∷ m) = (v < n) × (lookup v m ≡ none) × IsMapping n m

abbrev Below : ℕ → VirtualPhysicalMappingMap → Type 0
Below n [] = Unit {0}
Below n ((v, p) ∷ m) = (p < n) × Below n m

max_physical-start : (k : ℕ) (ps : List ℕ) → k ≤ max_physical k ps
unfolding max_physical
max_physical-start k [] = omega arith
max_physical-start k (p ∷ ps) = ground (arith, max_physical-start (if ltb k p then p else k) ps)

max_physical-Below :
    (k : ℕ) (m : VirtualPhysicalMappingMap) → Below (max_physical k (physical_qubits_of m) + 1) m
unfolding max_physical
max_physical-Below k [] = tt
max_physical-Below k ((v, p) ∷ m) =
    let k' = (if ltb k p then p else k) in
    (ground (arith, max_physical-start k' (physical_qubits_of m)), max_physical-Below k' m)

-- What the loop over the mapping `m` does to the slots.
record Swaps (n : ℕ) (filled : List Bytes) (m : VirtualPhysicalMappingMap) (slots out : List Bytes)
    : Type 0 where
  size : length out ≡ n
  mapped :
      (v p : ℕ)
      → lookup v m ≡ some p
      → get_elem? out (n - v - 1) ≡ get_elem? filled (length filled - p - 1)
  kept :
      (v : ℕ) → v < n → lookup v m ≡ none → get_elem? out (n - v - 1) ≡ get_elem? slots (n - v - 1)

lookup-lt :
    (n v p : ℕ) (m : VirtualPhysicalMappingMap) → IsMapping n m → lookup v m ≡ some p → v < n
lookup-lt n v p [] h e = cc
lookup-lt n v p ((w, q) ∷ m) h e = ground (arith, lookup-lt n v p m h.2)

lookup-Below : (k v p : ℕ) (m : VirtualPhysicalMappingMap) → Below k m → lookup v m ≡ some p → p < k
lookup-Below k v p [] h e = cc
lookup-Below k v p ((w, q) ∷ m) h e = ground (arith, lookup-Below k v p m h.1)

length-physical_qubits_of :
    (m : VirtualPhysicalMappingMap) → length (physical_qubits_of m) ≡ length m
length-physical_qubits_of [] = refl
length-physical_qubits_of (e ∷ m) = ap suc (length-physical_qubits_of m)

module _ (n : ℕ) (filled : List Bytes) where
  swap_loop-Swaps :
      (m : VirtualPhysicalMappingMap) (slots : List Bytes)
      → IsMapping n m
      → Below (length filled) m
      → length slots ≡ n
      → (out : List Bytes) × (swap_loop n filled m slots ≡ ok out) × Swaps n filled m slots out
  unfolding swap_loop
  swap_loop-Swaps [] slots h b l =
      (slots, refl, record { size = l; mapped = λ v p e. cc; kept = λ v lt e. refl })
  swap_loop-Swaps ((w, q) ∷ m) slots h b l =
      let (s, g) = get_elem?-some filled (length filled - q - 1) (omega arith) in
      let slots' = set slots (n - w - 1) s in
      let (out, e, f) = swap_loop-Swaps m slots' h.2 b.1 (length-set slots (n - w - 1) s ∙ l) in
      let inside : leb n w ≡ false = ground arith in
      let fits : leb (length filled) q ≡ false = ground arith in
      (
        out,
        rw (inside, swap_loop) (rw (fits, swap_loop) (rw (g, swap_loop) e)),
        record {
          size = f.size;
          mapped = λ v p look. mapped_by v p s out g f look (w == v) refl;
          kept = λ v lt look. kept_by v s out f lt look;
        },
      )
    where
      mapped_by :
          (v p : ℕ) (s : Bytes) (out : List Bytes)
          → get_elem? filled (length filled - q - 1) ≡ some s
          → Swaps n filled m (set slots (n - w - 1) s) out
          → lookup v ((w, q) ∷ m) ≡ some p
          → (t : Bool) → (w == v) ≡ t
          → get_elem? out (n - v - 1) ≡ get_elem? filled (length filled - p - 1)
      mapped_by v p s out g f look true t =
          let a : w ≡ v = (==_iff w v).0 t in
          let c : q ≡ p = ground arith in
          let d = f.kept w h.0 h.1 in
          let k = get_elem?-set_self slots (n - w - 1) s (omega arith) in
          rw (← a, ← c) (d ∙ k ∙ sym g)
      mapped_by v p s out g f look false t = f.mapped v p (ground arith)

      kept_by :
          (v : ℕ) (s : Bytes) (out : List Bytes)
          → Swaps n filled m (set slots (n - w - 1) s) out
          → v < n
          → lookup v ((w, q) ∷ m) ≡ none
          → get_elem? out (n - v - 1) ≡ get_elem? slots (n - v - 1)
      kept_by v s out f lt look =
          let other : w ≢ v = λ e. ground arith in
          f.kept v lt (ground arith)
          ∙ get_elem?-set_ne slots (n - w - 1) (n - v - 1) s (λ e. other (omega arith))

-- For a mapping of as many virtual qubits as the bit string has bits, each below that number and
-- mapped once, the swap never fails and never panics. It gives one slot for each virtual qubit, and the
-- slot of `v`, counted from the right, is the bit of the physical qubit that `v` is mapped to, counted
-- from the right in the order of the mapped physical qubits.
pub swap_bits-maps :
    (m : VirtualPhysicalMappingMap) (input : Bytes)
    → length m ≡ length input
    → IsMapping (length input) m
    → (slots : List Bytes) × (swap_bits m input ≡ ok slots)
      × (length slots ≡ length input)
      × ((v p : ℕ)
          → lookup v m ≡ some p
          → get_elem? slots (length input - v - 1) ≡ slot input (physical_qubits_of m) p)
unfolding swap_bits
swap_bits-maps m input l h = by (fill_missing_digits input ps) refl
  where
    ps : List ℕ
    ps = physical_qubits_of m

    n : ℕ
    n = length input

    Goal : Type 0
    Goal =
        (slots : List Bytes) × (swap_bits m input ≡ ok slots)
        × (length slots ≡ n)
        × ((v p : ℕ) → lookup v m ≡ some p → get_elem? slots (n - v - 1) ≡ slot input ps p)

    promise :
        (r : Outcome Fault (List Bytes)) → fill_missing_digits input ps ≡ r → IsFilled input ps r
    promise r e = subst (IsFilled input ps) e (fill_missing_digits-IsFilled input ps)

    by : (r : Outcome Fault (List Bytes)) → fill_missing_digits input ps ≡ r → Goal
    by (ok filled) e =
        let (_, size, bits) = promise (ok filled) e in
        let below : Below (length filled) m = rw size (max_physical-Below 0 m) in
        let (out, q, f) =
          swap_loop-Swaps n filled m (replicate n []) h below (length-replicate n []) in
        (
          out,
          rw (e, swap_bits) q,
          f.size,
          λ v p look.
              f.mapped v p look
              ∙ bits p (length filled - p - 1)
                  (omega (arith, lookup-Below (length filled) v p m below look)),
        )
    by (err x) e = absurd ((promise (err x) e).0 (length-physical_qubits_of m ∙ l))
    by panic e = absurd (promise panic e)
