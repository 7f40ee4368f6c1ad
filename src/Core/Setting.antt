-- ===== src/Core/Setting.antt =====
-- coreapp/core/setting.go: the settings by component, as the TOML decoder leaves them.
use oqtopus_engine.Prelude.{String, Bool, Option, none, some, List, []}
use oqtopus_engine.Prelude.Int.{ℤ}
use oqtopus_engine.Prelude.Dict.{Dict, lookup, insert, string_eq}

-- A value of the type `interface{}`, by its dynamic type. An integer of a TOML file is an int64, not an int.
-- The last is a value of any other type, which is the zero value of its type or not.
pub data Value : Type 0 where
  text : String → Value
  number : ℤ → Value
  number64 : ℤ → Value
  flag : Bool → Value
  texts : List String → Value
  other : Bool → Value

-- The setting of a component: a `map[string]interface{}` or not.
pub data ComponentSetting : Type 0 where
  table : Dict String Value → ComponentSetting
  no_table : ComponentSetting

-- `globalSetting`, which is nil at first.
abbrev pub Settings : Type 0
Settings = Option (Dict String ComponentSetting)

unfoldable pub get_component_setting : String → Settings → Option ComponentSetting
get_component_setting name none = none
get_component_setting name (some s) = lookup name s

-- `ResetSetting`.
unfoldable pub reset_setting : Settings
reset_setting = some []

-- `RegisterSetting`, which panics where nothing was reset: `none`.
unfoldable pub register_setting : String → ComponentSetting → Settings → Option Settings
register_setting name v none = none
register_setting name v (some s) = some (some (insert name v s))

-- `m[k].(string)` with its `ok` flag.
unfoldable pub string_at : String → Dict String Value → Option String
string_at k m = elim (lookup k m) [ some (text s) ↦ some s | _ ↦ none ]

pub record MitigatorSetting : Type 0 where
  pub host : String
  pub port : String

unfoldable pub new_mitigator_setting : MitigatorSetting
new_mitigator_setting = record { host = "localhost"; port = "5011" }
