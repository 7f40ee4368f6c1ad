-- ===== src/Jobs/Estimation/Operators.antt =====
-- coreapp/estimation/job.go: `serializeOperators`, and the list of physical qubits for the estimator.
use Prim.Native.String.{◌++◌}
use oqtopus_engine.Prelude.{
  ℕ, String, List, [], ◌∷◌, map, Outcome, ok, ◌>>=◌, ltb, if◌then◌else◌, or_else,
}
use oqtopus_engine.Prelude.Dict.{lookup, nat_eq}
use oqtopus_engine.Core.Fault.{Fault}
use oqtopus_engine.Core.Mapping.{VirtualPhysicalMappingMap}

-- The coefficient is a float64, as its bits.
pub record Operator : Type 0 where
  pub pauli : String
  pub co_eff : ℕ

module _ (format_g : ℕ → String) where
  -- The loop of `serializeOperators`, with a comma behind all but the last.
  unfoldable pub serialize_from : List Operator → String
  serialize_from [] = ""
  serialize_from (op ∷ []) = "[\"" ++ op.pauli ++ "\", " ++ format_g op.co_eff ++ "]"
  serialize_from (op ∷ op2 ∷ ops) =
      "[\"" ++ op.pauli ++ "\", " ++ format_g op.co_eff ++ "]" ++ ", " ++ serialize_from (op2 ∷ ops)

  unfoldable pub serialize_operators :
      (String → Outcome Fault (List Operator)) → String → Outcome Fault String
  unfolding serialize_from
  serialize_operators decode jinfo =
      decode jinfo >>= λ operators. ok ("[" ++ serialize_from operators ++ "]")

-- `sort.Slice` on numbers, as an insertion sort.
unfoldable pub insert_key : ℕ → List ℕ → List ℕ
insert_key k [] = k ∷ []
insert_key k (x ∷ xs) = let rest = insert_key k xs in if ltb x k then x ∷ rest else k ∷ x ∷ xs

unfoldable pub sort_keys : List ℕ → List ℕ
unfolding insert_key
sort_keys [] = []
sort_keys (k ∷ ks) = insert_key k (sort_keys ks)

abbrev pub keys_of : VirtualPhysicalMappingMap → List ℕ
keys_of [] = []
keys_of ((k, _) ∷ m) = k ∷ keys_of m

-- `mapping[key]`, 0 for a key that is not there.
abbrev pub value_at : VirtualPhysicalMappingMap → ℕ → ℕ
value_at m k = or_else (lookup k m) 0

-- `mappingList` of `estimationPreProcess`: the values by ascending key.
unfoldable pub mapping_list : VirtualPhysicalMappingMap → List ℕ
unfolding sort_keys
mapping_list m = map (value_at m) (sort_keys (keys_of m))
