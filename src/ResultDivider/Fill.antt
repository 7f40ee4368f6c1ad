-- ===== src/ResultDivider/Fill.antt =====
-- `fillMissingDigits`: a bit string over the measured physical qubits becomes one over all of them.
pub mod Slots
use oqtopus_engine.Prelude.{
  ℕ, zero, suc, ◌+◌, ◌-◌, ◌/◌, ◌%◌, Option, none, some, List, [], ◌∷◌, Outcome, ok, err, panic, ltb,
  ◌==◌, if◌then◌else◌, length, get_elem?, contains,
}
use oqtopus_engine.Prelude.Dict.{Bytes}
use oqtopus_engine.Core.Fault.{Fault, length_mismatch}

-- `string(b)` of a byte: the UTF-8 text of the code point `b`.
unfoldable pub string_of_byte : ℕ → Bytes
string_of_byte b = if ltb b 128 then b ∷ [] else (192 + b / 64) ∷ (128 + b % 64) ∷ []

-- The largest physical qubit, or the start value.
unfoldable pub max_physical : ℕ → List ℕ → ℕ
max_physical m [] = m
max_physical m (p ∷ ps) = max_physical (if ltb m p then p else m) ps

-- `input[cursor]` with `cursor = r - 1`, which panics for a cursor of -1.
abbrev pub byte_at : Bytes → ℕ → Option ℕ
byte_at input zero = none
byte_at input (suc cursor) = get_elem? input cursor

-- The loop for `i` and the following qubits: the slot of `i` stands in front of those of the qubits
-- before it. The cursor is `r - 1`.
unfoldable pub fill_loop : Bytes → List ℕ → ℕ → ℕ → ℕ → List Bytes → Outcome Fault (List Bytes)
unfolding string_of_byte
fill_loop input qubits zero i r slots = ok slots
fill_loop input qubits (suc n) i r slots =
    let copied = λ (c : ℕ). fill_loop input qubits n (i + 1) (r - 1) (string_of_byte c ∷ slots) in
    let missing = fill_loop input qubits n (i + 1) r ((b'0' ∷ []) ∷ slots) in
    if contains qubits i
    then elim (byte_at input r) [ none ↦ panic | some c ↦ copied c ]
    else missing

unfoldable pub fill_missing_digits : Bytes → List ℕ → Outcome Fault (List Bytes)
unfolding fill_loop max_physical
fill_missing_digits input qubits =
    if length qubits == length input
    then fill_loop input qubits (max_physical 0 qubits + 1) 0 (length input) []
    else err (length_mismatch (length qubits) (length input))
