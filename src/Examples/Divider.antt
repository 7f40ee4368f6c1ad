-- ===== src/Examples/Divider.antt =====
-- Bit strings, as bytes: 48 is the digit 0 and 49 is the digit 1.
use oqtopus_engine.Prelude.{
  ℕ, ◌-◌, some, List, [], ◌∷◌, ok, ◌≡◌, refl, arith, map, length, get_elem?,
}
use oqtopus_engine.Prelude.Int.{pos, ◌+ℤ◌, int32, uint32}
use oqtopus_engine.Prelude.Dict.{Bytes, lookup, nat_eq, bytes_eq}
use oqtopus_engine.Core.Data.{Counts, DividedResult}
use oqtopus_engine.Core.Mapping.{VirtualPhysicalMappingMap}
use oqtopus_engine.ResultDivider.{
  divide_from, slice, add_parts, add_count, swap_bits, physical_qubits_of, divide_string_by_lengths,
  divide_counts,
}
use oqtopus_engine.ResultDivider.Fill.{fill_missing_digits}
use oqtopus_engine.ResultDivider.Fill.Slots.{slot, IsFilled, fill_missing_digits-IsFilled}
use oqtopus_engine.ResultDivider.Swap.{swap_bits-maps}
use oqtopus_engine.ResultDivider.Partition.{IsDivided, divide_string_by_lengths-IsDivided}
use oqtopus_engine.ResultDivider.Conservation.{total, circuit_total, divide_counts_conserves}

-- "011".
abbrev bits : Bytes
bits = 48 ∷ 49 ∷ 49 ∷ []

fill_missing_digits-IsFilled_example :
    IsFilled bits (0 ∷ 2 ∷ 5 ∷ []) (fill_missing_digits bits (0 ∷ 2 ∷ 5 ∷ []))
fill_missing_digits-IsFilled_example = fill_missing_digits-IsFilled bits (0 ∷ 2 ∷ 5 ∷ [])

divide_string_by_lengths-IsDivided_example :
    IsDivided bits (1 ∷ 2 ∷ []) (divide_string_by_lengths bits (map pos (1 ∷ 2 ∷ [])))
divide_string_by_lengths-IsDivided_example =
    divide_string_by_lengths-IsDivided bits (1 ∷ 2 ∷ []) (ground arith) (ground arith)

-- Two outcomes of a circuit of one bit beside one of two bits.
abbrev joint : Counts
joint = (bits, 600) ∷ (48 ∷ 48 ∷ 48 ∷ [], 400) ∷ []

abbrev parted : DividedResult
parted = (1, (48 ∷ [], 1000) ∷ []) ∷ (0, (49 ∷ 49 ∷ [], 600) ∷ (48 ∷ 48 ∷ [], 400) ∷ []) ∷ []

joint_divided : divide_counts (pos 1 ∷ pos 2 ∷ []) joint [] ≡ ok parted
unfolding divide_counts divide_string_by_lengths divide_from slice add_parts add_count ◌+ℤ◌ int32
    uint32
joint_divided = refl

divide_counts_conserves_example : circuit_total 0 parted ≡ total joint
divide_counts_conserves_example =
    divide_counts_conserves (pos 1 ∷ pos 2 ∷ []) joint parted 0 joint_divided (ground arith)
      (ground arith)

-- Virtual qubit 0 at physical 5, 1 at 2 and 2 at 3.
abbrev spread : VirtualPhysicalMappingMap
spread = (0, 5) ∷ (1, 2) ∷ (2, 3) ∷ []

swap_bits-maps_example :
    (slots : List Bytes) × (swap_bits spread bits ≡ ok slots)
    × (length slots ≡ 3)
    × ((v p : ℕ)
        → lookup v spread ≡ some p
        → get_elem? slots (3 - v - 1) ≡ slot bits (physical_qubits_of spread) p)
swap_bits-maps_example =
    swap_bits-maps spread bits refl
      (ground arith, refl, (ground arith, refl, (ground arith, refl, tt)))
