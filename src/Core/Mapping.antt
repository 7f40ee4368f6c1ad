-- ===== src/Core/Mapping.antt =====
-- coreapp/core/data.go: `VirtualPhysicalMappingRaw.ToMap` once the JSON object is decoded. A key is
-- text and is read as `strconv.ParseUint(k, 10, 32)` reads it.
use oqtopus_engine.Prelude.{
  ℕ, ◌+◌, ◌-◌, ◌*◌, ◌^◌, Bool, ◌&&◌, Option, none, some, [], ◌∷◌, Outcome, ok, err, ltb, leb,
  if◌then◌else◌,
}
use oqtopus_engine.Prelude.Dict.{Bytes, Dict, insert, nat_eq}
use oqtopus_engine.Core.Fault.{Fault, invalid_key}

abbrev pub is_digit : ℕ → Bool
is_digit c = leb b'0' c && leb c b'9'

-- The digits after what has been read so far.
unfoldable pub parse_digits : ℕ → Bytes → Option ℕ
parse_digits acc [] = some acc
parse_digits acc (c ∷ s) =
    let rest = parse_digits (acc * 10 + (c - b'0')) s in if is_digit c then rest else none

-- `strconv.ParseUint(s, 10, 32)`: no digit, another character, or a number past 32 bits fails.
unfoldable pub parse_uint : Bytes → Option ℕ
unfolding parse_digits
parse_uint [] = none
parse_uint (c ∷ s) = elim (parse_digits 0 (c ∷ s)) [
  | none ↦ none
  | some n ↦ if ltb n (2 ^ 32) then some n else none
]

abbrev pub VirtualPhysicalMappingMap : Type 0
VirtualPhysicalMappingMap = Dict ℕ ℕ

-- The loop over the decoded object, on the map built so far.
unfoldable pub to_map_from :
    VirtualPhysicalMappingMap → Dict Bytes ℕ → Outcome Fault VirtualPhysicalMappingMap
unfolding parse_uint
to_map_from result [] = ok result
to_map_from result ((k, v) ∷ temp) = elim (parse_uint k) [
  | none ↦ err invalid_key
  | some key ↦ to_map_from (insert key v result) temp
]

-- `ToMap`: an error of the decoder is only logged, so `temp` is what it left.
unfoldable pub to_map : Dict Bytes ℕ → Outcome Fault VirtualPhysicalMappingMap
unfolding to_map_from
to_map temp = to_map_from [] temp
