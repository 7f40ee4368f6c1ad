-- ===== src/ResultDivider/Partition.antt =====
-- `divideStringByLengths` cuts a bit string into parts of the given lengths.
use mathlib.Core.List.{append-nil, append_assoc}
use oqtopus_engine.Prelude.{
  ℕ, zero, suc, ◌+◌, ◌-◌, ◌≤◌, ◌<◌, true, false, List, [], ◌∷◌, ◌++◌, map, Outcome, ok, err, panic,
  ltb, leb, length, length-take, length-drop, take, drop, take-append-drop, drop-drop, sum, ◌≡◌,
  ◌≢◌, refl, arith, Bool-cases, inl, inr, sym, ◌∙◌, if◌then◌else◌, ltb→lt,
}
use oqtopus_engine.Prelude.Int.{pos, +ℤ-pos, int32-pos, ltb_ℤ}
use oqtopus_engine.Prelude.Dict.{Bytes}
use oqtopus_engine.Core.Fault.{Fault, inconsistent_qubits}
use oqtopus_engine.ResultDivider.{join, slice, divide_from, divide_string_by_lengths}

-- What cutting from the position `p` on, after the parts `before`, comes to.
abbrev Cuts : Bytes → List ℕ → ℕ → List Bytes → Outcome Fault (List Bytes) → Type 0
Cuts input ns p before (ok out) =
    (parts : List Bytes) × (out ≡ before ++ parts)
    × (p + sum ns ≡ length input)
    × (join parts ≡ drop p input)
    × (map length parts ≡ ns)
Cuts input ns p before (err e) = (p + sum ns ≢ length input) × (e ≡ inconsistent_qubits)
Cuts input ns p before panic = ⊥

-- What a division into the lengths `ns` promises.
abbrev pub IsDivided : Bytes → List ℕ → Outcome Fault (List Bytes) → Type 0
IsDivided input ns (ok parts) =
    (sum ns ≡ length input) × (join parts ≡ input) × (map length parts ≡ ns)
IsDivided input ns (err e) = (sum ns ≢ length input) × (e ≡ inconsistent_qubits)
IsDivided input ns panic = ⊥

slice-pos :
    (input : Bytes) (p l : ℕ)
    → p + l ≤ length input
    → slice input (pos p) (pos (p + l)) ≡ ok (take l (drop p input))
unfolding slice
slice-pos input p l h =
    let a : leb p (p + l) ≡ true = ground arith in
    let b : leb (p + l) (length input) ≡ true = ground arith in
    let c : p + l - p ≡ l = omega arith in rw a (rw b (rw c))

drop-length : (xs : Bytes) (p : ℕ) → length xs ≡ p → drop p xs ≡ []
drop-length [] zero h = refl
drop-length [] (suc p) h = refl
drop-length (x ∷ xs) zero h = absurd (omega arith)
drop-length (x ∷ xs) (suc p) h = drop-length xs p (omega arith)

module _ (input : Bytes) (short : length input < 2147483648) where
  at_end :
      (p : ℕ) (before : List Bytes)
      → p ≤ length input
      → divide_from input [] (pos p) before
        ≡ (if leb (length input) p then ok before else err inconsistent_qubits)
  unfolding divide_from
  at_end p before h = rw (int32-pos (length input) short) (ground arith)

  too_long :
      (l : ℕ) (ns : List ℕ) (p : ℕ) (before : List Bytes)
      → p + l < 2147483648
      → length input < p + l
      → divide_from input (pos l ∷ map pos ns) (pos p) before ≡ err inconsistent_qubits
  unfolding divide_from
  too_long l ns p before b h =
      rw (+ℤ-pos, int32-pos (length input) short)
        (rw (int32-pos (p + l) b)
          (let t : ltb_ℤ (pos (length input)) (pos (p + l)) ≡ true = ground arith in rw t))

  one_part :
      (l : ℕ) (ns : List ℕ) (p : ℕ) (before : List Bytes)
      → p + l < 2147483648
      → p + l ≤ length input
      → divide_from input (pos l ∷ map pos ns) (pos p) before
        ≡ divide_from input (map pos ns) (pos (p + l)) (before ++ take l (drop p input) ∷ [])
  unfolding divide_from
  one_part l ns p before b h =
      rw (+ℤ-pos, int32-pos (length input) short)
        (rw (int32-pos (p + l) b) (
          let t : ltb_ℤ (pos (length input)) (pos (p + l)) ≡ false = ground arith in
          rw t (rw (slice-pos input p l h))))

  -- A part in front of what the rest comes to.
  cons-Cuts :
      (l : ℕ) (ns : List ℕ) (p : ℕ) (before : List Bytes) (r : Outcome Fault (List Bytes))
      → p + l ≤ length input
      → Cuts input ns (p + l) (before ++ take l (drop p input) ∷ []) r
      → Cuts input (l ∷ ns) p before r
  cons-Cuts l ns p before (ok out) h (parts, e, s, j, k) =
      let part = take l (drop p input) in
      let size : length part ≡ l =
        omega (arith, length-take l (drop p input), length-drop p input) in
      (
        part ∷ parts,
        e ∙ append_assoc before (part ∷ []) parts,
        omega arith,
        rw (j, ← drop-drop l p input) (take-append-drop l (drop p input)),
        rw (size, k),
      )
  cons-Cuts l ns p before (err e) h (n, m) = ((λ s. n (omega arith)), m)
  cons-Cuts l ns p before panic h c = c

  divide_from-Cuts :
      (ns : List ℕ) (p : ℕ) (before : List Bytes)
      → p ≤ length input
      → p + sum ns < 2147483648
      → Cuts input ns p before (divide_from input (map pos ns) (pos p) before)
  divide_from-Cuts [] p before h b =
      rw (at_end p before h) (elim (Bool-cases (leb (length input) p)) [
        | inl full ↦
            let e : length input ≡ p = ground arith in
            rw full ([], sym (append-nil before), omega arith, sym (drop-length input p e), refl)
        | inr less ↦ rw less ((λ e. ground arith), refl)
      ])
  divide_from-Cuts (l ∷ ns) p before h b = elim (Bool-cases (ltb (length input) (p + l))) [
    | inl long ↦
        let lt = ltb→lt (length input) (p + l) long in
        rw (too_long l ns p before (omega arith) lt) ((λ e. omega arith), refl)
    | inr fits ↦
        let le : p + l ≤ length input = ground arith in
        rw (one_part l ns p before (omega arith) le) (
          cons-Cuts l ns p before _ le
            (divide_from-Cuts ns (p + l) (before ++ take l (drop p input) ∷ []) le (omega arith)))
  ]

-- For lengths that are not negative and sum to less than 2^31, and a bit string shorter than that: the
-- division never panics; it fails exactly if the lengths do not sum to the length of the bit string;
-- otherwise it gives one part for each length, of that length, and the parts joined are the bit string.
pub divide_string_by_lengths-IsDivided :
    (input : Bytes) (ns : List ℕ)
    → length input < 2147483648
    → sum ns < 2147483648
    → IsDivided input ns (divide_string_by_lengths input (map pos ns))
unfolding divide_string_by_lengths
divide_string_by_lengths-IsDivided input ns short b =
    from (divide_from input (map pos ns) (pos 0) [])
      (divide_from-Cuts input short ns 0 [] (omega arith) (omega arith))
  where
    from : (r : Outcome Fault (List Bytes)) → Cuts input ns 0 [] r → IsDivided input ns r
    from (ok out) (parts, e, s, j, k) = (omega arith, rw e j, rw e k)
    from (err e) (n, m) = ((λ s. n (omega arith)), m)
    from panic c = c
