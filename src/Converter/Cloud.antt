-- ===== src/Converter/Cloud.antt =====
-- The parts of the generated API types (coreapp/oas/gen/providerapi) that the conversion reads.
use oqtopus_engine.Prelude.{ℕ, String, Option, List}
use oqtopus_engine.Prelude.Int.{ℤ}
use oqtopus_engine.Prelude.Dict.{Dict}
use oqtopus_engine.Core.Data.{TranspilerConfig}

-- `JobsJobStatus`.
pub data CloudStatus : Type 0 where
  submitted ready running succeeded failed cancelled : CloudStatus

-- `JobsJobType`, a text of which four are known.
pub data CloudJobType : Type 0 where
  sampling estimation multi_manual sse : CloudJobType
  other_type : String → CloudJobType

-- An optional value that may be null.
pub data OptNil {ℓ} (A : Type ℓ) : Type ℓ where
  unset null : OptNil A
  set : A → OptNil A

-- A JSON object whose values are kept raw; a value may be nil.
abbrev pub RawMap : Type 0
RawMap = Dict String (Option String)

pub record CloudJob : Type 0 where
  pub job_id : String
  pub shots : ℤ
  pub status : CloudStatus
  pub job_type : CloudJobType
  pub transpiler_info : OptNil RawMap
  pub mitigation_info : OptNil RawMap
  pub submitted_at : Option ℕ
  pub program : List String
  -- the operators, once marshalled
  pub operator : Option String
  pub message : Option String

-- What is asked of encoding/json; `none` is an error.
pub record Codec : Type 0 where
  pub decode_transpiler : RawMap → Option TranspilerConfig
  pub marshal_raw_map : RawMap → Option String
  pub marshal_programs : List String → Option String
