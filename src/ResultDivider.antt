-- ===== src/ResultDivider.antt =====
-- coreapp/multiprog/manual/resultdivider/result_divider.go: the counts of a combined circuit, whose
-- bit strings are put in the order of the virtual qubits and cut into those of the single circuits.
-- A bit string is its bytes; a slot of the `[]string` that `strings.Join` joins is one too.
pub mod Fill
pub mod Swap
pub mod Partition
pub mod Conservation
pub mod Keeps
pub use Fill.*
use oqtopus_engine.Prelude.{
  ℕ, zero, suc, ◌+◌, ◌-◌, ◌%◌, ◌^◌, Bool, Option, none, some, List, [], ◌∷◌, ◌++◌, Outcome, ok, err,
  panic, ◌>>=◌, String, or_panic, leb, ltb, ◌==◌, if◌then◌else◌, or_else, length, get_elem?, set,
  take, drop, replicate,
}
use oqtopus_engine.Prelude.Int.{ℤ, pos, negsuc, ◌+ℤ◌, ltb_ℤ, leb_ℤ, int32, uint32}
use oqtopus_engine.Prelude.Dict.{Bytes, Dict, lookup, insert, nat_eq, bytes_eq}
use oqtopus_engine.Core.Fault.{
  Fault, virtual_out_of_range, physical_out_of_range, inconsistent_qubits,
  inconsistent_qubit_property,
}
use oqtopus_engine.Core.Mapping.{VirtualPhysicalMappingMap, to_map}
use oqtopus_engine.Core.Job.{Call, done, failed}
use oqtopus_engine.Core.Data.{Counts, DividedResult, JobData, JobResult, TranspilerInfo}

-- The number of classical bits: the length of a key that the iteration meets first.
abbrev pub n_cbits : Counts → ℕ
n_cbits [] = 0
n_cbits ((k, _) ∷ _) = length k

-- The entries of the mapping below a number of virtual qubits.
unfoldable pub keep_below : ℕ → VirtualPhysicalMappingMap → VirtualPhysicalMappingMap
keep_below n [] = []
keep_below n ((virtual, physical) ∷ m) =
    let rest = keep_below n m in if ltb virtual n then (virtual, physical) ∷ rest else rest

unfoldable pub extract_virtual_physical_mapping :
    Counts → VirtualPhysicalMappingMap → VirtualPhysicalMappingMap
unfolding keep_below
extract_virtual_physical_mapping counts m =
    if ltb (n_cbits counts) (length m) then keep_below (uint32 (n_cbits counts)) m else m

abbrev pub physical_qubits_of : VirtualPhysicalMappingMap → List ℕ
physical_qubits_of [] = []
physical_qubits_of ((_, p) ∷ m) = p ∷ physical_qubits_of m

-- Step 3 of `swapVirtualPhysical`: the entries of the mapping are visited one by one.
unfoldable pub swap_loop :
    ℕ → List Bytes → VirtualPhysicalMappingMap → List Bytes → Outcome Fault (List Bytes)
swap_loop virtual_qubits filled [] slots = ok slots
swap_loop virtual_qubits filled ((virtual, physical) ∷ m) slots =
    let rest = λ (s : Bytes).
      swap_loop virtual_qubits filled m (set slots (virtual_qubits - virtual - 1) s) in
    if leb virtual_qubits virtual
    then err (virtual_out_of_range virtual virtual_qubits)
    else if leb (length filled) physical
    then err (physical_out_of_range physical (length filled))
    else elim (get_elem? filled (length filled - physical - 1)) [ none ↦ panic | some s ↦ rest s ]

-- `strings.Join(slots, "")`.
abbrev pub join : List Bytes → Bytes
join [] = []
join (s ∷ ss) = s ++ join ss

-- The body of the loop of `swapVirtualPhysical` for one bit string.
unfoldable pub swap_bits : VirtualPhysicalMappingMap → Bytes → Outcome Fault (List Bytes)
unfolding swap_loop
swap_bits m input = fill_missing_digits input (physical_qubits_of m) >>= λ filled.
    swap_loop (length input) filled m (replicate (length input) [])

unfoldable pub swap_counts : VirtualPhysicalMappingMap → Counts → Counts → Outcome Fault Counts
unfolding swap_bits
swap_counts m [] result = ok result
swap_counts m ((input, count) ∷ counts) result =
    swap_bits m input >>= λ slots. swap_counts m counts (insert (join slots) count result)

unfoldable pub swap_virtual_physical : Counts → VirtualPhysicalMappingMap → Outcome Fault Counts
unfolding swap_counts extract_virtual_physical_mapping
swap_virtual_physical counts m =
    if length m == 0
    then ok counts
    else swap_counts (extract_virtual_physical_mapping counts m) counts []

-- `input[lo:hi]`, which panics out of range.
unfoldable pub slice : Bytes → ℤ → ℤ → Outcome Fault Bytes
slice input (pos lo) (pos hi) =
    if leb lo hi
    then (if leb hi (length input) then ok (take (hi - lo) (drop lo input)) else panic)
    else panic
slice input _ _ = panic

-- The loop of `divideStringByLengths`; `currentPos` is an int32 and wraps.
unfoldable pub divide_from : Bytes → List ℤ → ℤ → List Bytes → Outcome Fault (List Bytes)
unfolding slice
divide_from input [] current_pos result =
    if leb_ℤ (int32 (pos (length input))) current_pos
    then (if leb_ℤ current_pos (int32 (pos (length input)))
        then ok result
        else err inconsistent_qubits)
    else err inconsistent_qubits
divide_from input (l ∷ lengths) current_pos result =
    let end = int32 (current_pos +ℤ l) in
    let rest = λ (part : Bytes). divide_from input lengths end (result ++ part ∷ []) in
    if ltb_ℤ (int32 (pos (length input))) end
    then err inconsistent_qubits
    else (slice input current_pos end >>= rest)

unfoldable pub divide_string_by_lengths : Bytes → List ℤ → Outcome Fault (List Bytes)
unfolding divide_from
divide_string_by_lengths input lengths = divide_from input lengths (pos 0) []

-- `divided_job_result[ith_circuit][divided_one_key] += v`, in 32 bits; the inner map is made first.
unfoldable pub add_count : ℕ → Bytes → ℕ → DividedResult → DividedResult
add_count ith key v r =
    let inner = or_else (lookup ith r) [] in
    insert ith (insert key (uint32 (or_else (lookup key inner) 0 + v)) inner) r

-- The inner loop of `DivideResult`: the part `i` is that of the circuit `n - i - 1`, and the loop is
-- at a part with `rest` parts from it on.
unfoldable pub add_parts : List Bytes → ℕ → DividedResult → DividedResult
unfolding add_count
add_parts [] v r = r
add_parts (key ∷ keys) v r = add_parts keys v (add_count (length keys) key v r)

-- The outer loop of `DivideResult`.
unfoldable pub divide_counts : List ℤ → Counts → DividedResult → Outcome Fault DividedResult
unfolding add_parts divide_string_by_lengths
divide_counts lengths [] r = ok r
divide_counts lengths ((k, v) ∷ counts) r =
    divide_string_by_lengths k lengths >>= λ keys. divide_counts lengths counts (add_parts keys v r)

set_counts : Counts → JobData → JobData
set_counts counts jd = record jd { result = record (jd.result) { counts = counts } }

set_divided : DividedResult → JobData → JobData
set_divided r jd = record jd { result = record (jd.result) { divided_result = some r } }

-- `DivideResult` after the conversion of the mapping. Where the division of a key fails, the swapped
-- counts stay in the job data.
unfoldable pub divide_mapped : VirtualPhysicalMappingMap → JobData → List ℤ → Call JobData
unfolding swap_virtual_physical divide_counts set_counts set_divided
divide_mapped m jd lengths = elim (swap_virtual_physical jd.result.counts m) [
  | ok counts ↦
      let jd1 = set_counts counts jd in
      elim (divide_counts lengths counts []) [
        | ok r ↦ done (set_divided r jd1)
        | err e ↦ failed e jd1
        | panic ↦ Call.panicked jd1
      ]
  | err e ↦ failed e jd
  | panic ↦ Call.panicked jd
]

-- `DivideResult`; `unmarshal` is the decoder of the raw mapping, and its result what it leaves.
unfoldable pub divide_result : (Option String → Dict Bytes ℕ) → JobData → List ℤ → Call JobData
unfolding divide_mapped to_map
divide_result unmarshal jd lengths =
    if length jd.result.counts == 0
    then failed inconsistent_qubit_property jd
    else elim (or_panic jd.result.transpiler_info >>= λ ti.
        to_map (unmarshal ti.virtual_physical_mapping_raw)) [
          | ok m ↦ divide_mapped m jd lengths
          | err e ↦ failed e jd
          | panic ↦ Call.panicked jd
        ]
