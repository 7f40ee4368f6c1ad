-- ===== src/Poller/Params/Refused.antt =====
-- Settings of the poller that stop the engine.
use oqtopus_engine.Prelude.{
  String, Bool, true, false, Option, none, some, Outcome, ok, err, panic, ◌>>=◌, or_panic, ◌≡◌,
  refl, if◌then◌else◌,
}
use oqtopus_engine.Prelude.Int.{ℤ, pos}
use oqtopus_engine.Prelude.Dict.{Dict, lookup, string_eq}
use oqtopus_engine.Core.Fault.{Fault}
use oqtopus_engine.Core.Setting.{Value, number64, table}
use oqtopus_engine.Poller.Params.{
  Params, as_number, as_text, is_zero, is_zero_number, set_field, set_fields, set_params, set_text,
  set_number,
}

-- A call that returns or panics.
abbrev NoError : {A : Type 0} → Outcome Fault A → Type 0
NoError (ok a) = Unit {0}
NoError (err e) = ⊥
NoError panic = Unit {0}

set_field-NoError :
    {A : Type 0} (assert : Value → Option A) (key : String) (pp : Dict String Value) (d : A)
    → NoError (set_field assert key pp d)
unfolding set_field
set_field-NoError {A = A} assert key pp d = by (lookup key pp)
  where
    asserted : (b : Bool) (o : Option A) → NoError (if b then ok d else or_panic {E = Fault} o)
    asserted true o = tt
    asserted false none = tt
    asserted false (some a) = tt

    by :
        (o : Option Value)
        → NoError (elim o as (λ _. Outcome Fault A) [
          | none ↦ ok d
          | some v ↦ if is_zero v then ok d else or_panic (assert v)
        ])
    by none = tt
    by (some v) = asserted (is_zero v) (assert v)

>>=-NoError :
    {A B : Type 0} (o : Outcome Fault A) (next : A → Outcome Fault B)
    → NoError o
    → ((a : A) → NoError (next a))
    → NoError (o >>= next)
>>=-NoError (ok a) next h k = k a
>>=-NoError (err e) next h k = h
>>=-NoError panic next h k = tt

>>=-panic :
    {A B : Type 0} (o : Outcome Fault A) (next : A → Outcome Fault B)
    → NoError o
    → ((a : A) → next a ≡ panic)
    → (o >>= next) ≡ panic
>>=-panic (ok a) next h k = k a
>>=-panic (err e) next h k = absurd h
>>=-panic panic next h k = refl

int64_count :
    (pp : Dict String Value) (n d : ℤ)
    → lookup "count" pp ≡ some (number64 n)
    → is_zero_number n ≡ false
    → set_field as_number "count" pp d ≡ panic
unfolding set_field is_zero
int64_count pp n d h z = rw (h, set_field) (rw (z, is_zero) refl)

set_text-NoError :
    (pp : Dict String Value) (key d : String) (store : String → Params → Params) (p : Params)
    → NoError (set_text pp key d store p)
unfolding set_text
set_text-NoError pp key d store p =
    >>=-NoError (set_field as_text key pp d) (λ v. ok (store v p))
      (set_field-NoError as_text key pp d) (λ v. tt)

-- A count that a settings file gives, which is an int64 and not an int, panics `SetParams` unless it is 0.
pub set_params-int64 :
    (parse : String → Option ℤ) (pp : Dict String Value) (p : Params) (n : ℤ)
    → lookup "count" pp ≡ some (number64 n)
    → is_zero_number n ≡ false
    → set_params parse (some (table pp)) p ≡ panic
unfolding set_params set_fields set_number
set_params-int64 parse pp p n h z =
    let named : Outcome Fault Params =
      set_text pp "device" "dummy_device" (λ v q. record q { device = v }) p
      >>= set_text pp "edge" "dummy_edge" (λ v q. record q { edge = v }) in
    let store : ℤ → Params → Params = λ v q. record q { count = v } in
    rw
      (>>=-panic named (set_number pp "count" (pos 10) store)
        (>>=-NoError _ (set_text pp "edge" "dummy_edge" (λ v q. record q { edge = v }))
          (set_text-NoError pp "device" "dummy_device" (λ v q. record q { device = v }) p)
          (set_text-NoError pp "edge" "dummy_edge" (λ v q. record q { edge = v })))
        (λ q. rw (int64_count pp n (pos 10) h z) refl))
      refl
