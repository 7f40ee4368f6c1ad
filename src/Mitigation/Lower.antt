-- ===== src/Mitigation/Lower.antt =====
-- The counts that the mitigator gives, reduced to the lower bits of their keys.
use oqtopus_engine.Prelude.{
  ℕ, ◌-◌, ◌≤◌, Bool, true, false, Option, none, some, [], ◌∷◌, ok, err, ◌≡◌, ◌⊎◌, inr, refl, length,
  length-drop, All, ◌==◌, if◌then◌else◌, arith,
}
use oqtopus_engine.Prelude.Int.{ℤ}
use oqtopus_engine.Prelude.Dict.{Bytes, Dict, lookup, insert, bytes_eq, bytes_beq, lookup-insert}
use oqtopus_engine.Core.Fault.{different_key_lengths}
use oqtopus_engine.Core.Data.{Counts}
use oqtopus_engine.Qpu.Gateway.Send.{to_uint32}
use oqtopus_engine.Mitigation.{get_lower_bits, lower_counts, get_num_of_qubits, num_of_qubits_from}

-- The value of the last entry whose key has the lower bits `k`.
abbrev pub last_with : ℕ → Bytes → Dict Bytes ℤ → Option ℕ
last_with n k [] = none
last_with n k ((b, v) ∷ counts) = elim (last_with n k counts) [
  | some w ↦ some w
  | none ↦ if bytes_beq (get_lower_bits b n) k then some (to_uint32 v) else none
]

abbrev pub first_of {ℓ} : {A : Type ℓ} → Option A → Option A → Option A
first_of (some a) o = some a
first_of none o = o

lookup-lower_counts_from :
    (n : ℕ) (k : Bytes) (counts : Dict Bytes ℤ) (acc : Counts)
    → lookup k (lower_counts n counts acc) ≡ first_of (last_with n k counts) (lookup k acc)
unfolding lower_counts
lookup-lower_counts_from n k [] acc = refl
lookup-lower_counts_from n k ((b, v) ∷ counts) acc = ground (
  arith,
  lookup-lower_counts_from n k counts (insert (get_lower_bits b n) (to_uint32 v) acc),
  lookup-insert (get_lower_bits b n) k (to_uint32 v) acc,
)

-- A key of the reduced counts has the value of the last entry of the answer with those lower bits: entries
-- that share them are not added up.
pub lookup-lower_counts :
    (n : ℕ) (k : Bytes) (counts : Dict Bytes ℤ)
    → lookup k (lower_counts n counts []) ≡ first_of (last_with n k counts) none
lookup-lower_counts n k counts = lookup-lower_counts_from n k counts []

abbrev pub IsShort : ℕ → Bytes × ℕ → Type 0
IsShort n e = length e.0 ≤ n

get_lower_bits-IsShort : (b : Bytes) (n : ℕ) → length (get_lower_bits b n) ≤ n
unfolding get_lower_bits
get_lower_bits-IsShort b n = ground (arith, length-drop (length b - n) b)

insert-IsShort :
    (n : ℕ) (k : Bytes) (v : ℕ) (m : Counts)
    → length k ≤ n
    → All (IsShort n) m
    → All (IsShort n) (insert k v m)
insert-IsShort n k v [] h a = (h, tt)
insert-IsShort n k v ((j, w) ∷ m) h (a, rest) = by (bytes_beq j k) (insert-IsShort n k v m h rest)
  where
    by :
        (b : Bool)
        → All (IsShort n) (insert k v m)
        → All (IsShort n) (if b then (k, v) ∷ m else (j, w) ∷ insert k v m)
    by true i = (h, rest)
    by false i = (a, i)

-- No key of the reduced counts is longer than the number of qubits.
pub lower_counts-IsShort :
    (n : ℕ) (counts : Dict Bytes ℤ) (acc : Counts)
    → All (IsShort n) acc
    → All (IsShort n) (lower_counts n counts acc)
unfolding lower_counts
lower_counts-IsShort n [] acc a = a
lower_counts-IsShort n ((k, v) ∷ counts) acc a =
    lower_counts-IsShort n counts _
      (insert-IsShort n (get_lower_bits k n) (to_uint32 v) acc (get_lower_bits-IsShort k n) a)

-- A key of this length, or an empty one, which the loop takes for no candidate.
abbrev pub HasLength : ℕ → Bytes × ℕ → Type 0
HasLength n e = (length e.0 ≡ n) ⊎ (length e.0 ≡ 0)

num_of_qubits_from-HasLength :
    (candidate n : ℕ) (counts : Counts)
    → num_of_qubits_from candidate counts ≡ ok n
    → All (HasLength n) counts × ((candidate ≡ n) ⊎ (candidate ≡ 0))
unfolding num_of_qubits_from
num_of_qubits_from-HasLength candidate n [] h = (tt, ground arith)
num_of_qubits_from-HasLength candidate n ((k, v) ∷ counts) h =
    by (candidate == 0) (candidate == length k) refl refl
      (num_of_qubits_from-HasLength (length k) n counts)
      (num_of_qubits_from-HasLength candidate n counts) h
  where
    by :
        (b c : Bool)
        → (candidate == 0) ≡ b
        → (candidate == length k) ≡ c
        → (num_of_qubits_from (length k) counts ≡ ok n
            → All (HasLength n) counts × ((length k ≡ n) ⊎ (length k ≡ 0)))
        → (num_of_qubits_from candidate counts ≡ ok n
            → All (HasLength n) counts × ((candidate ≡ n) ⊎ (candidate ≡ 0)))
        → (if b
            then num_of_qubits_from (length k) counts
            else if c
            then num_of_qubits_from candidate counts
            else err different_key_lengths)
          ≡ ok n
        → All (HasLength n) ((k, v) ∷ counts) × ((candidate ≡ n) ⊎ (candidate ≡ 0))
    by true c p q next rest g = let (a, s) = next g in ((s, a), inr (ground arith))
    by false true p q next rest g = let (a, s) = rest g in ((ground arith, a), s)
    by false false p q next rest g = cc

-- If the counts have a number of qubits, every key that is not empty has that length.
pub get_num_of_qubits-HasLength :
    (n : ℕ) (counts : Counts) → get_num_of_qubits counts ≡ ok n → All (HasLength n) counts
unfolding get_num_of_qubits
get_num_of_qubits-HasLength n [] h = cc
get_num_of_qubits-HasLength n (e ∷ counts) h = (num_of_qubits_from-HasLength 0 n (e ∷ counts) h).0
