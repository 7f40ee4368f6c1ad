-- ===== src/Poller/Params/Durations.antt =====
-- A period in the settings that is no duration.
use oqtopus_engine.Prelude.{
  String, Bool, true, false, Option, none, some, [], ◌∷◌, Outcome, ok, panic, ◌>>=◌, or_panic, ◌≡◌,
  refl, arith, ◌∙◌, str_eq, ◌⊎◌, inl, inr, or_else, if◌then◌else◌,
}
use oqtopus_engine.Prelude.Int.{ℤ, pos, negsuc, ltb_ℤ}
use oqtopus_engine.Prelude.Dict.{Dict, lookup, string_eq}
use oqtopus_engine.Core.Fault.{Fault}
use oqtopus_engine.Core.Setting.{Value, text, table}
use oqtopus_engine.Poller.{Poller, Tick, task, setup, require_period_update}
use oqtopus_engine.Poller.Params.{
  Params, as_number, as_text, as_flag, set_flag, default_period, is_zero, set_field,
  set_duration_field, set_fields, set_params, set_text, set_number, set_duration,
}
use oqtopus_engine.Poller.Params.Period.{poller_task, IsPositive}
use oqtopus_engine.RunGroup.{add_periodic_task, start, tick, ticks, set_ticker, same_period}

-- The value of a key is missing, zero, or of the type that is asserted.
abbrev pub Reads : {A : Type 0} → (Value → Option A) → String → Dict String Value → Type 0
Reads {A = A} assert key pp =
    (v : Value) → lookup key pp ≡ some v → (is_zero v ≡ true) ⊎ ((a : A) × (assert v ≡ some a))

-- The settings but for the normal period and the retries.
pub record IsReadable (pp : Dict String Value) : Type 0 where
  pub device : Reads as_text "device" pp
  pub edge : Reads as_text "edge" pp
  pub count : Reads as_number "count" pp
  pub region : Reads as_text "region" pp
  pub endpoint : Reads as_text "endpoint" pp
  pub access_key : Reads as_text "access_key" pp
  pub secret_key : Reads as_text "secret_key" pp
  pub api_key : Reads as_text "api_key" pp
  pub session_token : Reads as_text "session_token" pp
  pub enable_test_mode : Reads as_flag "enable_test_mode" pp
  pub idle_period : Reads as_text "idle_period" pp

module _ (pp : Dict String Value) where
  set_field-ok :
      {A : Type 0} (assert : Value → Option A) (key : String) (d : A)
      → Reads assert key pp
      → (a : A) × (set_field assert key pp d ≡ ok a)
  unfolding set_field
  set_field-ok {A = A} assert key d reads = by (lookup key pp) refl
    where
      asserted :
          (b : Bool) (o : Option A)
          → (b ≡ true) ⊎ ((a : A) × (o ≡ some a))
          → (a : A) × ((if b then ok d else or_panic {E = Fault} o) ≡ ok a)
      asserted true o h = (d, refl)
      asserted false (some a) h = (a, refl)
      asserted false none (inl e) = cc
      asserted false none (inr (a, e)) = cc

      by :
          (o : Option Value)
          → lookup key pp ≡ o
          → (a : A) × ((elim o as (λ _. Outcome Fault A) [
            | none ↦ ok d
            | some v ↦ if is_zero v then ok d else or_panic (assert v)
          ])
              ≡ ok a)
      by none e = (d, refl)
      by (some v) e = asserted (is_zero v) (assert v) (reads v e)

  module _ (parse : String → Option ℤ) (readable : IsReadable pp) where
    -- The idle period that a value gives.
    abbrev idle_value : Bool → Option String → Outcome Fault ℤ
    idle_value b o =
        if b then ok default_period else (or_panic o >>= λ s. ok (or_else (parse s) (pos 0)))

    idle_value-ok :
        (b : Bool) (o : Option String)
        → (b ≡ true) ⊎ ((a : String) × (o ≡ some a))
        → (n : ℤ) × (idle_value b o ≡ ok n)
    idle_value-ok true o h = (default_period, refl)
    idle_value-ok false (some s) h = (or_else (parse s) (pos 0), refl)
    idle_value-ok false none (inl e) = cc
    idle_value-ok false none (inr (a, e)) = cc

    idle-ok : (n : ℤ) × (set_duration_field parse "idle_period" pp default_period ≡ ok n)
    unfolding set_duration_field
    idle-ok = by (lookup "idle_period" pp) refl
      where
        by :
            (o : Option Value)
            → lookup "idle_period" pp ≡ o
            → (n : ℤ) × ((elim o as (λ _. Outcome Fault ℤ) [
              | none ↦ ok default_period
              | some v ↦ idle_value (is_zero v) (as_text v)
            ])
                ≡ ok n)
        by none e = (default_period, refl)
        by (some v) e = idle_value-ok (is_zero v) (as_text v) (readable.idle_period v e)

    normal-ok :
        (s : String)
        → lookup "normal_period" pp ≡ some (text s)
        → str_eq s "" ≡ false
        → parse s ≡ none
        → set_duration_field parse "normal_period" pp default_period ≡ ok (pos 0)
    unfolding set_duration_field is_zero
    normal-ok s h z e = rw (h, set_duration_field) (rw (z, is_zero) (rw e refl))

    retries-ok :
        lookup "max_retry" pp ≡ none → set_field as_number "max_retry" pp (pos 3) ≡ ok (pos 3)
    unfolding set_field
    retries-ok h = rw (h, set_field) refl

    -- The poller that is set.
    set_fields-ok :
        (s : String) (p : Params)
        → lookup "normal_period" pp ≡ some (text s)
        → str_eq s "" ≡ false
        → parse s ≡ none
        → lookup "max_retry" pp ≡ none
        → (q : Params) × (set_fields parse pp p ≡ ok q)
          × (q.poller.max_retry ≡ pos 3)
          × (q.poller.normal_period ≡ pos 0)
    unfolding set_fields set_text set_number set_flag set_duration
    set_fields-ok s p h z e r =
        let (device, e1) = set_field-ok as_text "device" "dummy_device" readable.device in
        let (edge, e2) = set_field-ok as_text "edge" "dummy_edge" readable.edge in
        let (count, e3) = set_field-ok as_number "count" (pos 10) readable.count in
        let (region, e5) = set_field-ok as_text "region" "ap-northeast-1" readable.region in
        let (endpoint, e6) = set_field-ok as_text "endpoint" "localhost:8080" readable.endpoint in
        let (access_key, e7) = set_field-ok as_text "access_key" "hogehoge" readable.access_key in
        let (secret_key, e8) = set_field-ok as_text "secret_key" "fugafuga" readable.secret_key in
        let (api_key, e9) = set_field-ok as_text "api_key" "DefaultAPIKey" readable.api_key in
        let (token, e10) = set_field-ok as_text "session_token" "" readable.session_token in
        let (test_mode, e11) =
          set_field-ok as_flag "enable_test_mode" false readable.enable_test_mode in
        let (idle, e13) = idle-ok in
        (
          record {
            device = device;
            edge = edge;
            count = count;
            region = region;
            endpoint = endpoint;
            access_key = access_key;
            secret_key = secret_key;
            session_token = token;
            api_key = api_key;
            enable_test_mode = test_mode;
            poller = record (p.poller) {
              max_retry = pos 3;
              normal_period = pos 0;
              idle_period = idle;
            };
          },
          rw (e1, e2, e3, retries-ok r, e5, e6, e7, e8, e9, e10, e11, normal-ok s h z e, e13) refl,
          refl,
          refl,
        )

-- A poller that is not idle yet keeps the normal period.
still_normal :
    {J : Type 0} (p : Poller) (first second : Tick J)
    → ltb_ℤ (pos 2) p.max_retry ≡ true
    → (task second (task first (setup p)).0).0.current_period ≡ p.normal_period
unfolding task setup
still_normal p first second h = ground arith

other_period : (period : ℤ) → IsPositive period → same_period (pos 0) period ≡ false
other_period (pos n) h = ground arith
other_period (negsuc n) h = refl

no_period_panics :
    {J : Type 0} (period : ℤ) (p : Poller) (first second : Tick J)
    → IsPositive period
    → ltb_ℤ (pos 2) p.max_retry ≡ true
    → p.normal_period ≡ pos 0
    → add_periodic_task poller_task period first (second ∷ []) (setup p) ≡ panic
unfolding add_periodic_task start ticks tick set_ticker require_period_update
no_period_panics period p first second h m z =
    rw h (rw (still_normal p first second m ∙ z) (rw (other_period period h) refl))

-- If the settings give a text as the normal period that is neither empty nor a duration, leave the retries out, and
-- every other value in them can be read, then `SetParams` returns no error, with a normal period of zero, and once the
-- poller is set up and run as a periodic task with a positive period, the first tick panics the run group.
pub bad_duration_panics :
    {J : Type 0} (parse : String → Option ℤ) (pp : Dict String Value) (p : Params) (s : String)
    (period : ℤ) (first second : Tick J)
    → IsReadable pp
    → lookup "normal_period" pp ≡ some (text s)
    → str_eq s "" ≡ false
    → parse s ≡ none
    → lookup "max_retry" pp ≡ none
    → IsPositive period
    → (p' : Params) × (set_params parse (some (table pp)) p ≡ ok p')
      × (p'.poller.normal_period ≡ pos 0)
      × (add_periodic_task poller_task period first (second ∷ []) (setup p'.poller) ≡ panic)
unfolding set_params
bad_duration_panics parse pp p s period first second readable h z e r n =
    let (p', run, retries, stops) = set_fields-ok pp parse readable s p h z e r in
    let more : ltb_ℤ (pos 2) p'.poller.max_retry ≡ true = rw retries refl in
    (p', run, stops, no_period_panics period p'.poller first second n more stops)
