-- ===== src/ResultDivider/Conservation.antt =====
-- The division keeps the number of shots: every circuit gets as many as there were.
use oqtopus_engine.Prelude.{
  ℕ, ◌+◌, ◌≤◌, ◌<◌, Bool, true, false, List, [], ◌∷◌, ◌++◌, Outcome, ok, err, ltb, >>=-eq-ok,
  or_else, length, length-append, ◌≡◌, ◌≢◌, arith, Bool-cases, inl, inr, ◌∙◌, if◌then◌else◌, ◌==◌,
  ==_iff,
}
use oqtopus_engine.Prelude.Int.{ℤ, pos, ◌+ℤ◌, int32, ltb_ℤ, uint32, uint32_small}
use oqtopus_engine.Prelude.Dict.{
  Bytes, lookup, insert, nat_eq, bytes_eq, lookup-insert_self, lookup-insert_ne,
}
use oqtopus_engine.Core.Fault.{Fault}
use oqtopus_engine.Core.Data.{Counts, DividedResult}
use oqtopus_engine.ResultDivider.{
  slice, divide_from, divide_string_by_lengths, add_count, add_parts, divide_counts,
}

-- The number of shots in a map of counts, and of one circuit in a divided result.
abbrev pub total : Counts → ℕ
total [] = 0
total ((k, v) ∷ m) = v + total m

abbrev pub circuit_total : ℕ → DividedResult → ℕ
circuit_total i r = total (or_else (lookup i r) [])

-- The count of a key, 0 where it has none.
abbrev count_of : Bytes → Counts → ℕ
count_of k m = or_else (lookup k m) 0

count_of-le-total : (k : Bytes) (m : Counts) → count_of k m ≤ total m
count_of-le-total k [] = omega arith
count_of-le-total k ((j, w) ∷ m) = ground (arith, count_of-le-total k m)

total-insert : (k : Bytes) (x : ℕ) (m : Counts) → total (insert k x m) + count_of k m ≡ total m + x
total-insert k x [] = omega arith
total-insert k x ((j, w) ∷ m) = ground (arith, total-insert k x m)

-- One more count for the circuit `i`, and no other circuit changes.
add_count-total :
    (i : ℕ) (key : Bytes) (v : ℕ) (r : DividedResult) (j : ℕ)
    → circuit_total i r + v < 4294967296
    → circuit_total j (add_count i key v r) ≡ circuit_total j r + (if i == j then v else 0)
unfolding add_count
add_count-total i key v r j b = elim (Bool-cases (i == j)) [
  | inl same ↦
      let e : i ≡ j = (==_iff i j).0 same in
      let inner = or_else (lookup i r) [] in
      let new = uint32 (count_of key inner + v) in
      let small : new ≡ count_of key inner + v =
        uint32_small (count_of key inner + v) (omega (arith, count_of-le-total key inner)) in
      rw (same, ← e)
        (rw (lookup-insert_self i (insert key new inner) r)
          (omega (arith, total-insert key new inner, small)))
  | inr other ↦
      let ne : i ≢ j = λ e. ground arith in rw (other, lookup-insert_ne i j _ r ne) (omega arith)
]

add_parts-total :
    (keys : List Bytes) (v : ℕ) (r : DividedResult) (j : ℕ)
    → ((i : ℕ) → i < length keys → circuit_total i r + v < 4294967296)
    → circuit_total j (add_parts keys v r)
      ≡ circuit_total j r + (if ltb j (length keys) then v else 0)
unfolding add_parts
add_parts-total [] v r j b = ground arith
add_parts-total (key ∷ keys) v r j b =
    let i = length keys in
    let here = add_count-total i key v r in
    let rest =
      add_parts-total keys v (add_count i key v r) j
        (λ m lt. ground (arith, here m (b i (omega arith)), b m (omega arith))) in
    ground (arith, here j (b i (omega arith)), rest)

if-eq-ok {ℓ} :
    {A : Type ℓ} (t : Bool) (x : Outcome Fault A) (e : Fault) {a : A}
    → (if t then err e else x) ≡ ok a
    → x ≡ ok a
if-eq-ok true x e h = cc
if-eq-ok false x e h = h

-- A division that succeeds gives one part for each length.
length-divide_from :
    (input : Bytes) (lengths : List ℤ) (p : ℤ) (before out : List Bytes)
    → divide_from input lengths p before ≡ ok out
    → length out ≡ length before + length lengths
unfolding divide_from
length-divide_from input [] p before out h =
    let e : before ≡ out = ground arith in rw (← e) (omega arith)
length-divide_from input (l ∷ lengths) p before out h =
    let end = int32 (p +ℤ l) in
    let (part, _, q) =
      >>=-eq-ok (slice input p end) _ (if-eq-ok (ltb_ℤ (int32 (pos (length input))) end) _ _ h) in
    omega (
      arith,
      length-divide_from input lengths end (before ++ part ∷ []) out q,
      length-append before (part ∷ []),
    )

divide_counts-total :
    (lengths : List ℤ) (counts : Counts) (r out : DividedResult) (j : ℕ)
    → divide_counts lengths counts r ≡ ok out
    → ((i : ℕ) → i < length lengths → circuit_total i r + total counts < 4294967296)
    → j < length lengths
    → circuit_total j out ≡ circuit_total j r + total counts
unfolding divide_counts divide_string_by_lengths
divide_counts-total lengths [] r out j h b lt = let e : r ≡ out = cc in rw (← e) (omega arith)
divide_counts-total lengths ((k, v) ∷ counts) r out j h b lt =
    let (keys, p, q) = >>=-eq-ok (divide_string_by_lengths k lengths) _ h in
    let size : length keys ≡ length lengths =
      omega (arith, length-divide_from k lengths (pos 0) [] keys p) in
    let step = λ (m : ℕ). add_parts-total keys v r m (λ i il. omega (arith, b i (omega arith))) in
    let rest =
      divide_counts-total lengths counts (add_parts keys v r) out j q
        (λ i il. ground (arith, step i, b i il)) lt in
    ground (arith, step j, rest)

-- When the counts of a combined job, less than 2^32 shots together, are divided with no error, the
-- counts of every single circuit sum to the same number of shots.
pub divide_counts_conserves :
    (lengths : List ℤ) (counts : Counts) (out : DividedResult) (j : ℕ)
    → divide_counts lengths counts [] ≡ ok out
    → total counts < 4294967296
    → j < length lengths
    → circuit_total j out ≡ total counts
divide_counts_conserves lengths counts out j h b lt =
    divide_counts-total lengths counts [] out j h (λ i il. omega arith) lt ∙ (omega arith)
