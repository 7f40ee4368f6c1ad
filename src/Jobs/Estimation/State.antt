-- ===== src/Jobs/Estimation/State.antt =====
-- coreapp/estimation/job.go: the state of an `EstimationJob`, its settings, and the services that it calls. The
-- estimator is `estimator_pre` and `estimator_post`, its two requests at an address, the connection included.
use Prim.Native.String.{◌++◌}
use oqtopus_engine.Prelude.{
  ℕ, String, Bool, false, Option, none, some, List, [], ◌∷◌, Outcome, or_else,
}
use oqtopus_engine.Prelude.Dict.{Bytes, Dict, lookup, string_eq}
use oqtopus_engine.Core.Fault.{Fault}
use oqtopus_engine.Core.Setting.{
  Settings, Value, texts, table, no_table, get_component_setting, string_at,
}
use oqtopus_engine.Core.Data.{JobData, Counts, Estimation}
use oqtopus_engine.Core.Job.{Call}
use oqtopus_engine.Mitigation.{Json, Mitigator}
use oqtopus_engine.Jobs.Estimation.Operators.{Operator}

pub record EstimationSetting : Type 0 where
  pub host : String
  pub port : String
  pub basis_gates : List String

unfoldable pub new_estimation_setting : EstimationSetting
new_estimation_setting = record {
  host = "localhost";
  port = "5012";
  basis_gates = "sx" ∷ "rz" ∷ "cx" ∷ [];
}

-- `mapped["basis_gates"].([]string)`.
unfoldable pub texts_at : String → Dict String Value → Option (List String)
texts_at k m = elim (lookup k m) [ some (texts ss) ↦ some ss | _ ↦ none ]

-- The setting of the component, with a default for each entry that is missing or of another type.
unfoldable pub estimation_setting : Settings → EstimationSetting
unfolding get_component_setting new_estimation_setting string_at texts_at
estimation_setting s = elim (get_component_setting "estimation" s) [
  | none ↦ new_estimation_setting
  | some no_table ↦ new_estimation_setting
  | some (table m) ↦ record {
    host = or_else (string_at "host" m) new_estimation_setting.host;
    port = or_else (string_at "port" m) new_estimation_setting.port;
    basis_gates = or_else (texts_at "basis_gates" m) new_estimation_setting.basis_gates;
  }
]

pub record EstimationJob : Type 0 where
  pub setting : EstimationSetting
  pub job_data : JobData
  pub preprocessed_qasms : List String
  pub orig_operators : String
  pub grouped_operators : String
  pub counts_list : List Counts
  pub use_transpiler : Bool
  pub used_qasm : String
  pub finished : Bool

-- `New`.
unfoldable pub new : Settings → JobData → EstimationJob
unfolding estimation_setting
new s jd = record {
  setting = estimation_setting s;
  job_data = jd;
  preprocessed_qasms = [];
  orig_operators = "";
  grouped_operators = "";
  counts_list = [];
  use_transpiler = false;
  used_qasm = "";
  finished = false;
}

pub record PreProcessRequest : Type 0 where
  pub qasm_code : String
  pub operators : String
  pub basis_gates : List String
  pub mapping_list : List ℕ

pub record PreProcessReply : Type 0 where
  pub qasm_codes : List String
  pub grouped_operators : String

pub record PostProcessRequest : Type 0 where
  pub counts : List Counts
  pub grouped_operators : String

pub record Services : Type 0 where
  -- `none` where there is no error
  pub insert_job : JobData → Option Fault
  pub transpile : JobData → Call JobData
  pub send : JobData → Call JobData
  pub json : Json
  pub mitigator : Mitigator
  pub decode_operators : String → Outcome Fault (List Operator)
  -- the text of a float64
  pub format_g : ℕ → String
  pub decode_mapping : Option String → Dict Bytes ℕ
  pub estimator_pre : String → PreProcessRequest → Outcome Fault PreProcessReply
  pub estimator_post : String → PostProcessRequest → Outcome Fault Estimation
  pub now : ℕ

abbrev pub address : EstimationJob → String
address j = j.setting.host ++ ":" ++ j.setting.port
