-- ===== src/Qpu/Filter.antt =====
-- coreapp/qpu/circuit.go: `validateStatements` and `filterList`, with the comparison of statement
-- names of coreapp/common/util.go. A circuit is the list of the rule names of its statements. Names are
-- bytes; `strings.ToLower` is given for ASCII, which the grammar's rule names are.
pub mod Lists
use oqtopus_engine.Prelude.{
  ℕ, Bool, true, false, not, ◌&&◌, ◌||◌, List, [], ◌∷◌, ◌+◌, ◌-◌, map, Outcome, ok, err, panic,
  ◌>>=◌, ltb, leb, length, drop, take, ◌==◌, if◌then◌else◌, ◌≡◌, refl, ◌≢◌, ◌↔◌, arith, All,
}
use oqtopus_engine.Prelude.Dict.{Bytes, bytes_beq}

-- The fault names the statement that is refused.
pub data Refusal : Type 0 where
  statement_is_not_supported : Bytes → Refusal

unfoldable pub lower : ℕ → ℕ
lower c = if leb 65 c && leb c 90 then c + 32 else c

-- `strings.ReplaceAll(s, c, "")` for a byte `c`.
unfoldable pub remove_all : ℕ → Bytes → Bytes
remove_all c [] = []
remove_all c (x ∷ xs) = let rest = remove_all c xs in if x == c then rest else x ∷ rest

unfoldable pub trim_suffix : Bytes → Bytes → Bytes
trim_suffix suffix s =
    let n = length s - length suffix in
    if leb (length suffix) (length s) && bytes_beq (drop n s) suffix then take n s else s

-- "statement".
abbrev pub statement_suffix : Bytes
statement_suffix = 115 ∷ 116 ∷ 97 ∷ 116 ∷ 101 ∷ 109 ∷ 101 ∷ 110 ∷ 116 ∷ []

unfoldable pub normalize_statement_name : Bytes → Bytes
unfolding trim_suffix remove_all lower
normalize_statement_name s =
    trim_suffix statement_suffix (remove_all 45 (remove_all 95 (map lower s)))

unfoldable pub contains_normal : Bytes → List Bytes → Bool
unfolding normalize_statement_name
contains_normal s [] = false
contains_normal s (c ∷ list) =
    let rest = contains_normal s list in
    if bytes_beq s (normalize_statement_name c) then true else rest

unfoldable pub contains_statement_name : Bytes → List Bytes → Bool
unfolding contains_normal normalize_statement_name
contains_statement_name s list = contains_normal (normalize_statement_name s) list

pub record StatementList : Type 0 where
  pub enabled : Bool
  pub statements : List Bytes

pub record QasmSupport : Type 0 where
  pub allow_list : StatementList
  pub deny_list : StatementList

-- The loop of `filterList`.
unfoldable pub filter_list : List Bytes → List Bytes → Bool → Outcome Refusal (Unit {0})
unfolding contains_statement_name
filter_list [] list return_if_filtered = ok tt
filter_list (n ∷ circ) list return_if_filtered =
    let rest = filter_list circ list return_if_filtered in
    if return_if_filtered
    then if contains_statement_name n list then err (statement_is_not_supported n) else rest
    else if not (contains_statement_name n list)
    then err (statement_is_not_supported n)
    else rest

unfoldable pub validate_statements : List Bytes → QasmSupport → Outcome Refusal (Unit {0})
unfolding filter_list
validate_statements circ s =
    (if s.allow_list.enabled then filter_list circ s.allow_list.statements false else ok tt)
    >>= λ _. (if s.deny_list.enabled then filter_list circ s.deny_list.statements true else ok tt)
