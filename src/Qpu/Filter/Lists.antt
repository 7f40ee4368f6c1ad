-- ===== src/Qpu/Filter/Lists.antt =====
-- Which circuits the allow list and the deny list let through.
use oqtopus_engine.Prelude.{
  Bool, true, false, List, [], ◌∷◌, Outcome, ok, err, panic, ◌>>=◌, ◌≡◌, subst, ◌↔◌, inl, inr,
  arith, All, Bool-cases, refl, if◌then◌else◌,
}
use oqtopus_engine.Prelude.Dict.{Bytes, bytes_beq, bytes_beq_iff}
use oqtopus_engine.Qpu.Filter.{
  QasmSupport, Refusal, normalize_statement_name, contains_normal, contains_statement_name,
  filter_list, validate_statements,
}

-- Some name of the list is the given one up to case, dashes, underscores and the suffix "statement".
pub data Names (n : Bytes) : List Bytes → Type 0 where
  here :
      (c : Bytes) (list : List Bytes)
      → normalize_statement_name n ≡ normalize_statement_name c
      → Names n (c ∷ list)
  there : (c : Bytes) (list : List Bytes) → Names n list → Names n (c ∷ list)

contains→names :
    (n : Bytes) (list : List Bytes) → contains_statement_name n list ≡ true → Names n list
unfolding contains_statement_name contains_normal
contains→names n [] h = ground arith
contains→names n (c ∷ list) h =
    elim (Bool-cases (bytes_beq (normalize_statement_name n) (normalize_statement_name c))) [
      | inl e ↦ here c list ((bytes_beq_iff _ _).0 e)
      | inr e ↦ there c list (contains→names n list (ground arith))
    ]

names→contains :
    (n : Bytes) (list : List Bytes) → Names n list → contains_statement_name n list ≡ true
unfolding contains_statement_name contains_normal
names→contains n _ (here c list e) =
    ground (arith, bytes_beq_iff (normalize_statement_name n) (normalize_statement_name c))
names→contains n _ (there c list m) = ground (arith, names→contains n list m)

-- Every statement of the circuit is named by an enabled allow list and by no enabled deny list.
pub record IsSupported (circ : List Bytes) (s : QasmSupport) : Type 0 where
  pub allowed : s.allow_list.enabled ≡ true → All (λ n. Names n s.allow_list.statements) circ
  pub not_denied : s.deny_list.enabled ≡ true → All (λ n. ¬ Names n s.deny_list.statements) circ

allowed→ :
    (circ list : List Bytes) → filter_list circ list false ≡ ok tt → All (λ n. Names n list) circ
unfolding filter_list
allowed→ [] list h = tt
allowed→ (n ∷ circ) list h = elim (Bool-cases (contains_statement_name n list)) [
  | inl e ↦ (contains→names n list e, allowed→ circ list (ground arith))
  | inr e ↦ absurd (ground arith)
]

→allowed :
    (circ list : List Bytes) → All (λ n. Names n list) circ → filter_list circ list false ≡ ok tt
unfolding filter_list
→allowed [] list h = refl
→allowed (n ∷ circ) list (m, h) = ground (arith, names→contains n list m, →allowed circ list h)

denied→ :
    (circ list : List Bytes) → filter_list circ list true ≡ ok tt → All (λ n. ¬ Names n list) circ
unfolding filter_list
denied→ [] list h = tt
denied→ (n ∷ circ) list h = elim (Bool-cases (contains_statement_name n list)) [
  | inl e ↦ absurd (ground arith)
  | inr e ↦ ((λ m. ground (arith, names→contains n list m)), denied→ circ list (ground arith))
]

→denied :
    (circ list : List Bytes) → All (λ n. ¬ Names n list) circ → filter_list circ list true ≡ ok tt
unfolding filter_list
→denied [] list h = refl
→denied (n ∷ circ) list (m, h) = elim (Bool-cases (contains_statement_name n list)) [
  | inl e ↦ absurd (m (contains→names n list e))
  | inr e ↦ ground (arith, →denied circ list h)
]

both_pass :
    (on on' : Bool) (r r' : Outcome Refusal (Unit {0}))
    → ((if on then r else ok tt) >>= λ _. if on' then r' else ok tt) ≡ ok tt
    → (on ≡ true → r ≡ ok tt) × (on' ≡ true → r' ≡ ok tt)
both_pass true on' (ok _) r' h =
    ((λ e. refl), λ e. subst (λ b. (if b then r' else ok tt) ≡ ok tt) e h)
both_pass true on' (err e) r' h = absurd (ground arith)
both_pass true on' panic r' h = absurd (ground arith)
both_pass false on' r r' h =
    ((λ e. absurd (ground arith)), λ e. subst (λ b. (if b then r' else ok tt) ≡ ok tt) e h)

supported→ :
    (circ : List Bytes) (s : QasmSupport) → validate_statements circ s ≡ ok tt → IsSupported circ s
unfolding validate_statements
supported→ circ s h =
    let (a, d) =
      both_pass s.allow_list.enabled s.deny_list.enabled
        (filter_list circ s.allow_list.statements false)
        (filter_list circ s.deny_list.statements true) h in
    record {
      allowed = λ on. allowed→ circ s.allow_list.statements (a on);
      not_denied = λ on. denied→ circ s.deny_list.statements (d on);
    }

-- A list that is not enabled passes everything.
when_enabled :
    (on : Bool) (r : Outcome Refusal (Unit {0}))
    → (on ≡ true → r ≡ ok tt)
    → (if on then r else ok tt) ≡ ok tt
when_enabled true r h = h refl
when_enabled false r h = refl

→supported :
    (circ : List Bytes) (s : QasmSupport) → IsSupported circ s → validate_statements circ s ≡ ok tt
unfolding validate_statements
→supported circ s h =
    rw
      (when_enabled s.allow_list.enabled (filter_list circ s.allow_list.statements false)
        (λ on. →allowed circ s.allow_list.statements (h.allowed on)))
      (when_enabled s.deny_list.enabled (filter_list circ s.deny_list.statements true)
        (λ on. →denied circ s.deny_list.statements (h.not_denied on)))

-- `validate_statements` passes exactly the circuits each of whose statements is named by the allow list, if
-- that is enabled, and by no entry of the deny list, if that is enabled; names are compared up to case,
-- dashes, underscores and the suffix "statement".
pub validate_statements-eq-ok :
    (circ : List Bytes) (s : QasmSupport)
    → (validate_statements circ s ≡ ok tt) ↔ IsSupported circ s
validate_statements-eq-ok circ s = (supported→ circ s, →supported circ s)
