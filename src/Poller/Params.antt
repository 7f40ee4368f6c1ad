-- ===== src/Poller/Params.antt =====
-- coreapp/poller/poller.go: `SetParams`, which reads the parameters of the poller from its settings. The parser
-- of durations is a parameter: `none` is an error.
pub mod Period
pub mod Refused
pub mod Durations
use oqtopus_engine.Prelude.{
  ℕ, String, Bool, true, false, not, Option, none, some, List, [], Outcome, ok, err, panic, ◌>>=◌,
  or_panic, or_else, str_eq, if◌then◌else◌, ◌==◌,
}
use oqtopus_engine.Prelude.Int.{ℤ, pos, negsuc}
use oqtopus_engine.Prelude.Dict.{Dict, lookup, string_eq}
use oqtopus_engine.Core.Fault.{Fault, params_not_a_table}
use oqtopus_engine.Core.Setting.{
  Value, text, number, number64, flag, texts, other, ComponentSetting, table, no_table,
}
use oqtopus_engine.Poller.{Poller}

pub record Params : Type 0 where
  pub device : String
  pub edge : String
  pub count : ℤ
  pub region : String
  pub endpoint : String
  pub access_key : String
  pub secret_key : String
  pub session_token : String
  pub api_key : String
  pub enable_test_mode : Bool
  pub poller : Poller

abbrev pub is_zero_number : ℤ → Bool
is_zero_number (pos n) = n == 0
is_zero_number (negsuc n) = false

-- `reflect.ValueOf(v).IsZero()`.
unfoldable pub is_zero : Value → Bool
is_zero (text s) = str_eq s ""
is_zero (number n) = is_zero_number n
is_zero (number64 n) = is_zero_number n
is_zero (flag b) = not b
is_zero (texts ss) = false
is_zero (other z) = z

-- The type assertions `v.(string)`, `v.(int)` and `v.(bool)`.
abbrev pub as_text : Value → Option String
as_text (text s) = some s
as_text _ = none

abbrev pub as_number : Value → Option ℤ
as_number (number n) = some n
as_number _ = none

abbrev pub as_flag : Value → Option Bool
as_flag (flag b) = some b
as_flag _ = none

-- `setField`: the default for a key that is missing or zero, and a panic for a value of another type.
unfoldable pub set_field :
    {A : Type 0} → (Value → Option A) → String → Dict String Value → A → Outcome Fault A
unfolding is_zero
set_field assert key pp default = elim (lookup key pp) [
  | none ↦ ok default
  | some v ↦ if is_zero v then ok default else or_panic (assert v)
]

-- `setDurationField`: the error of a text that is no duration is only logged, and the duration is zero.
unfoldable pub set_duration_field :
    (String → Option ℤ) → String → Dict String Value → ℤ → Outcome Fault ℤ
unfolding is_zero
set_duration_field parse key pp default = elim (lookup key pp) [
  | none ↦ ok default
  | some v ↦
      if is_zero v
      then ok default
      else (or_panic (as_text v) >>= λ s. ok (or_else (parse s) (pos 0)))
]

-- Ten seconds, in nanoseconds: `DEFAULT_NORMAL_PERIOD` and `DEFAULT_IDLE_PERIOD`.
abbrev pub default_period : ℤ
default_period = pos 10000000000

module _ (pp : Dict String Value) where
  set_text : String → String → (String → Params → Params) → Params → Outcome Fault Params
  unfolding set_field
  set_text key default store p = set_field as_text key pp default >>= λ v. ok (store v p)

  set_number : String → ℤ → (ℤ → Params → Params) → Params → Outcome Fault Params
  unfolding set_field
  set_number key default store p = set_field as_number key pp default >>= λ v. ok (store v p)

  set_flag : String → Bool → (Bool → Params → Params) → Params → Outcome Fault Params
  unfolding set_field
  set_flag key default store p = set_field as_flag key pp default >>= λ v. ok (store v p)

  set_duration :
      (String → Option ℤ) → String → (ℤ → Params → Params) → Params → Outcome Fault Params
  unfolding set_duration_field
  set_duration parse key store p =
      set_duration_field parse key pp default_period >>= λ v. ok (store v p)

-- The fields of a table, in the order of the source.
unfoldable pub set_fields : (String → Option ℤ) → Dict String Value → Params → Outcome Fault Params
unfolding set_text set_number set_flag set_duration
set_fields parse pp p =
    set_text pp "device" "dummy_device" (λ v q. record q { device = v }) p
    >>= set_text pp "edge" "dummy_edge" (λ v q. record q { edge = v })
    >>= set_number pp "count" (pos 10) (λ v q. record q { count = v })
    >>= set_number pp "max_retry" (pos 3)
        (λ v q. record q { poller = record (q.poller) { max_retry = v } })
    >>= set_text pp "region" "ap-northeast-1" (λ v q. record q { region = v })
    >>= set_text pp "endpoint" "localhost:8080" (λ v q. record q { endpoint = v })
    >>= set_text pp "access_key" "hogehoge" (λ v q. record q { access_key = v })
    >>= set_text pp "secret_key" "fugafuga" (λ v q. record q { secret_key = v })
    >>= set_text pp "api_key" "DefaultAPIKey" (λ v q. record q { api_key = v })
    >>= set_text pp "session_token" "" (λ v q. record q { session_token = v })
    >>= set_flag pp "enable_test_mode" false (λ v q. record q { enable_test_mode = v })
    >>= set_duration pp parse "normal_period"
        (λ v q. record q { poller = record (q.poller) { normal_period = v } })
    >>= set_duration pp parse "idle_period"
        (λ v q. record q { poller = record (q.poller) { idle_period = v } })

-- `SetParams`; without parameters nothing is set, not even the defaults.
unfoldable pub set_params :
    (String → Option ℤ) → Option ComponentSetting → Params → Outcome Fault Params
unfolding set_fields
set_params parse none p = ok p
set_params parse (some no_table) p = err params_not_a_table
set_params parse (some (table pp)) p = set_fields parse pp p
