-- ===== src/ResultDivider/Fill/Slots.antt =====
-- What `fillMissingDigits` puts into the slot of each physical qubit.
use native.Mathlib.Nat.{le_refl, add-zero, add-suc, zero-add}
use native.Mathlib.Numerals.{add-one}
use oqtopus_engine.Prelude.{
  ℕ, zero, suc, ◌+◌, ◌-◌, ◌≤◌, Bool, true, false, Option, none, some, List, [], ◌∷◌, Outcome, ok,
  err, panic, ltb, ◌==◌, if◌then◌else◌, length, get_elem?, get_elem?-some, contains, ◌≡◌, ◌≢◌, refl,
  arith, ==_iff, Bool-cases, inl, inr, ap, sym, ◌∙◌,
}
use oqtopus_engine.Prelude.Dict.{Bytes}
use oqtopus_engine.Core.Fault.{Fault, length_mismatch}
use oqtopus_engine.ResultDivider.Fill.{
  string_of_byte, max_physical, byte_at, fill_loop, fill_missing_digits,
}

-- The number of listed qubits below `n`.
abbrev pub rank : List ℕ → ℕ → ℕ
rank qubits zero = 0
rank qubits (suc n) = (if contains qubits n then 1 else 0) + rank qubits n

rank-cons :
    (q : ℕ) (qubits : List ℕ) (n : ℕ)
    → rank (q ∷ qubits) n ≤ rank qubits n + (if ltb q n then 1 else 0)
rank-cons q qubits zero = ground arith
rank-cons q qubits (suc n) = ground (arith, rank-cons q qubits n)

-- There are at most as many of them as entries in the list.
pub rank-le-length : (qubits : List ℕ) (n : ℕ) → rank qubits n ≤ length qubits
rank-le-length [] zero = omega arith
rank-le-length [] (suc n) = omega (arith, rank-le-length [] n)
rank-le-length (q ∷ qubits) n = ground (arith, rank-cons q qubits n, rank-le-length qubits n)

rank-suc :
    (qubits : List ℕ) (i : ℕ)
    → rank qubits (i + 1) ≡ (if contains qubits i then 1 else 0) + rank qubits i
rank-suc qubits i = rw add-one

rank_mono : (qubits : List ℕ) (i n : ℕ) → rank qubits i ≤ rank qubits (i + n)
rank_mono qubits i zero = rw add-zero (le_refl _)
rank_mono qubits i (suc n) = rw add-suc (omega (arith, rank_mono qubits i n))

-- The slot of a qubit: the bit of a listed one, counted from the right in the order of the listed
-- qubits, and 0 for the others.
pub slot : Bytes → List ℕ → ℕ → Option Bytes
slot input qubits p =
    if contains qubits p
    then elim (byte_at input (length input - rank qubits p)) [
      | none ↦ none
      | some c ↦ some (string_of_byte c)
    ]
    else some (b'0' ∷ [])

-- What the loop from `i` over `n` qubits does to the slots before it.
record Fills (input : Bytes) (qubits : List ℕ) (n i : ℕ) (slots out : List Bytes) : Type 0 where
  size : length out ≡ n + length slots
  old : (k : ℕ) → get_elem? out (n + k) ≡ get_elem? slots k
  new : (p k : ℕ) → i ≤ p → p + suc k ≡ i + n → get_elem? out k ≡ slot input qubits p

module _ (input : Bytes) (qubits : List ℕ) where
  one_round :
      (n i : ℕ) (slots out : List Bytes) (s : Bytes)
      → slot input qubits i ≡ some s
      → Fills input qubits n (i + 1) (s ∷ slots) out
      → Fills input qubits (suc n) i slots out
  one_round n i slots out s e h = record { size = omega arith; old = old_slot; new = new_slot }
    where
      old_slot : (k : ℕ) → get_elem? out (suc n + k) ≡ get_elem? slots k
      old_slot k =
          let j : suc n + k ≡ n + suc k = omega arith in ap (get_elem? out) j ∙ h.old (suc k)

      first : get_elem? out n ≡ some s
      first = ap (get_elem? out) (sym (add-zero n)) ∙ h.old 0

      new_slot : (p k : ℕ) → i ≤ p → p + suc k ≡ i + suc n → get_elem? out k ≡ slot input qubits p
      new_slot p k lo j = elim (Bool-cases (i == p)) [
        | inl same ↦
            let a : i ≡ p = (==_iff i p).0 same in
            let b : k ≡ n = omega arith in rw (← a, b) (first ∙ sym e)
        | inr other ↦ let a : i + 1 ≤ p = ground arith in h.new p k a (omega arith)
      ]

  slot-listed :
      (i c b : ℕ)
      → contains qubits i ≡ true
      → suc c + rank qubits i ≡ length input
      → get_elem? input c ≡ some b
      → slot input qubits i ≡ some (string_of_byte b)
  unfolding slot
  slot-listed i c b e l g =
      let j : length input - rank qubits i ≡ suc c = omega arith in rw (e, j) (rw g)

  fill_loop-Fills :
      (n i r : ℕ) (slots : List Bytes)
      → r + rank qubits i ≡ length input
      → rank qubits (i + n) ≤ length input
      → (out : List Bytes) × (fill_loop input qubits n i r slots ≡ ok out)
        × Fills input qubits n i slots out
  unfolding fill_loop
  fill_loop-Fills zero i r slots l h = (
    slots,
    refl,
    record {
      size = omega arith;
      old = λ k. ap (get_elem? slots) (zero-add k);
      new = λ p k lo j. absurd (omega arith);
    },
  )
  fill_loop-Fills (suc n) i r slots l h =
      by (contains qubits i) refl r l (λ r' slots' l'. fill_loop-Fills n (i + 1) r' slots' l' up)
    where
      up : rank qubits (i + 1 + n) ≤ length input
      up = let e : i + 1 + n ≡ i + suc n = omega arith in rw e h

      Result : ℕ → ℕ → ℕ → List Bytes → Type 0
      Result n i r slots =
          (out : List Bytes) × (fill_loop input qubits n i r slots ≡ ok out)
          × Fills input qubits n i slots out

      listed :
          (c : ℕ)
          → contains qubits i ≡ true
          → suc c + rank qubits i ≡ length input
          → ((r' : ℕ) (slots' : List Bytes)
              → r' + rank qubits (i + 1) ≡ length input
              → Result n (i + 1) r' slots')
          → Result (suc n) i (suc c) slots
      listed c e l ih =
          let (b, g) = get_elem?-some input c (omega arith) in
          let s = slot-listed i c b e l g in
          let next : suc c - 1 + rank qubits (i + 1) ≡ length input =
            rw (rank-suc, e) (omega arith) in
          let (out, q, f) = ih (suc c - 1) (string_of_byte b ∷ slots) next in
          (
            out,
            rw (e, fill_loop) (rw (g, fill_loop) q),
            one_round n i slots out (string_of_byte b) s f,
          )

      by :
          (t : Bool)
          → contains qubits i ≡ t
          → (r : ℕ) → r + rank qubits i ≡ length input
          → ((r' : ℕ) (slots' : List Bytes)
              → r' + rank qubits (i + 1) ≡ length input
              → Result n (i + 1) r' slots')
          → Result (suc n) i r slots
      by true e zero l ih =
          let a : rank qubits (i + 1) ≡ 1 + rank qubits i = rw (rank-suc, e) in
          absurd (omega (arith, rank_mono qubits (i + 1) n, up))
      by true e (suc c) l ih = listed c e l ih
      by false e r l ih =
          let next : r + rank qubits (i + 1) ≡ length input = rw (rank-suc, e) (omega arith) in
          let (out, q, f) = ih r ((b'0' ∷ []) ∷ slots) next in
          (out, rw (e, fill_loop) q, one_round n i slots out (b'0' ∷ []) (unfold slot in rw e) f)

-- What `fillMissingDigits` promises: an error exactly for a list of another length than the bit string,
-- and otherwise one slot for each qubit up to the largest, the slot of `p` at the index `k` from the
-- left with `p + k` the largest.
abbrev pub IsFilled : Bytes → List ℕ → Outcome Fault (List Bytes) → Type 0
IsFilled input qubits (ok slots) =
    (length qubits ≡ length input)
    × (length slots ≡ max_physical 0 qubits + 1)
    × ((p k : ℕ) → p + k ≡ max_physical 0 qubits → get_elem? slots k ≡ slot input qubits p)
IsFilled input qubits (err e) =
    (length qubits ≢ length input) × (e ≡ length_mismatch (length qubits) (length input))
IsFilled input qubits panic = ⊥

-- Filling never panics. It fails, with the two lengths, exactly if they differ; otherwise every qubit
-- up to the largest has a slot, which holds the next bit from the right if the qubit is listed, and 0
-- if it is not.
pub fill_missing_digits-IsFilled :
    (input : Bytes) (qubits : List ℕ) → IsFilled input qubits (fill_missing_digits input qubits)
unfolding fill_missing_digits
fill_missing_digits-IsFilled input qubits = elim (Bool-cases (length qubits == length input)) [
  | inl same ↦
      let e : length qubits ≡ length input = (==_iff _ _).0 same in
      let n = max_physical 0 qubits + 1 in
      let (out, q, f) =
        fill_loop-Fills input qubits n 0 (length input) [] (omega arith)
          (omega (arith, rank-le-length qubits (0 + n))) in
      rw (same, fill_missing_digits)
        (rw q (e, omega (arith, f.size), λ p k j. f.new p k (omega arith) (omega arith)))
  | inr differ ↦ rw (differ, fill_missing_digits) ((λ e. ground arith), refl)
]
