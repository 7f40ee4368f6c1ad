-- ===== src/Converter.antt =====
-- coreapp/oas/converter.go: jobs of the cloud's API to job data. The types of the generated client are
-- given as far as the conversion reads them; `Codec` holds what it asks of encoding/json.
pub mod Cloud
pub mod RoundTrip
pub mod Intake
pub mod Outgoing
pub use Cloud.*
use oqtopus_engine.Prelude.{
  ℕ, String, Bool, true, false, Option, none, some, List, [], ◌∷◌, Outcome, ok, err, panic, ◌>>=◌,
  or_else, is_some, if◌then◌else◌, str_eq,
}
use oqtopus_engine.Prelude.Dict.{Dict, lookup, string_eq}
use oqtopus_engine.Core.Fault.{Fault}
use oqtopus_engine.Core.Status.{Status, submitted, ready, running, succeeded, failed, cancelled}
use oqtopus_engine.Core.Data.{
  TranspilerConfig, JobData, JobResult, Message, text, new_result, new_job_data,
}

-- `convertFromCloudStatus`.
unfoldable pub convert_from_cloud_status : CloudStatus → Status
convert_from_cloud_status CloudStatus.submitted = submitted
convert_from_cloud_status CloudStatus.ready = ready
convert_from_cloud_status CloudStatus.running = running
convert_from_cloud_status CloudStatus.succeeded = succeeded
convert_from_cloud_status CloudStatus.failed = failed
convert_from_cloud_status CloudStatus.cancelled = failed

-- `convertToAPIStatus`.
unfoldable pub convert_to_api_status : Status → CloudStatus
convert_to_api_status submitted = CloudStatus.submitted
convert_to_api_status ready = CloudStatus.ready
convert_to_api_status running = CloudStatus.running
convert_to_api_status succeeded = CloudStatus.succeeded
convert_to_api_status failed = CloudStatus.failed
convert_to_api_status cancelled = CloudStatus.failed

-- A raw value that is absent as Go sees it: nil, or the text null.
abbrev pub is_null_lib : Option String → Bool
is_null_lib none = true
is_null_lib (some raw) = str_eq raw "null"

unfoldable pub use_transpiler : OptNil RawMap → Bool
use_transpiler null = true
use_transpiler unset = true
use_transpiler (set t) = elim (lookup "transpiler_lib" t) [
  | none ↦ true
  | some tl ↦ if is_null_lib tl then false else true
]

unfoldable pub use_default_transpiler : OptNil RawMap → Bool
use_default_transpiler null = true
use_default_transpiler unset = true
use_default_transpiler (set t) = if is_some (lookup "transpiler_lib" t) then false else true

abbrev pub empty_config : TranspilerConfig
empty_config = record { transpiler_lib = none; transpiler_options = none; use_default = false }

-- `DEFAULT_TRANSPILER_CONFIG` (coreapp/core/syscomponent.go).
abbrev pub default_transpiler_config : TranspilerConfig
default_transpiler_config = record {
  transpiler_lib = some "qiskit";
  transpiler_options = some "{\"optimization_level\":1}";
  use_default = true;
}

-- `ConvertToTranspilerInfo`: what cannot be decoded gives an empty configuration.
unfoldable pub convert_to_transpiler_info : Codec → RawMap → TranspilerConfig
convert_to_transpiler_info codec ti = or_else (codec.decode_transpiler ti) empty_config

-- `convertToTranspilerInfoFromONTI`.
unfoldable pub convert_to_transpiler_info_from_onti : Codec → OptNil RawMap → TranspilerConfig
unfolding convert_to_transpiler_info
convert_to_transpiler_info_from_onti codec (set ti) = convert_to_transpiler_info codec ti
convert_to_transpiler_info_from_onti codec _ = empty_config

-- `ConvertToMitigationInfo`.
unfoldable pub convert_to_mitigation_info : Codec → OptNil RawMap → String
convert_to_mitigation_info codec null = "{}"
convert_to_mitigation_info codec unset = "{}"
convert_to_mitigation_info codec (set m) = or_else (codec.marshal_raw_map m) "{}"

-- The `switch` on the job type: the type in the engine, and `QASM` where the program is an array.
unfoldable pub convert_job_type : CloudJobType → String
convert_job_type sampling = "sampling"
convert_job_type estimation = "estimation_job"
convert_job_type multi_manual = "multi_manual"
convert_job_type sse = "sse"
convert_job_type (other_type t) = "normal"

-- The program: all of a multi_manual job as one text, and else the first, which is read unchecked.
unfoldable pub convert_program : Codec → CloudJobType → List String → Outcome Fault String
convert_program codec multi_manual program = ok (or_else (codec.marshal_programs program) "")
convert_program codec t [] = panic
convert_program codec t (p ∷ ps) = ok p

-- The choice of the transpiler, and whether the cloud is to be told of it.
unfoldable pub convert_transpiler : Codec → OptNil RawMap → TranspilerConfig × Bool
unfolding use_transpiler use_default_transpiler convert_to_transpiler_info_from_onti
convert_transpiler codec ti =
    if use_transpiler ti
    then (if use_default_transpiler ti
        then (default_transpiler_config, true)
        else (convert_to_transpiler_info_from_onti codec ti, false))
    else (empty_config, false)

-- `ConvertFromCloudJob`, at the time `now`. A message that is not set gets a fixed text.
unfoldable pub convert_from_cloud_job : Codec → ℕ → CloudJob → Outcome Fault JobData
unfolding convert_transpiler convert_to_mitigation_info convert_from_cloud_status convert_job_type
    convert_program new_job_data new_result
convert_from_cloud_job codec now j =
    let (config, update) = convert_transpiler codec j.transpiler_info in
    convert_program codec j.job_type j.program >>= λ qasm. ok (record (new_job_data now) {
      id = j.job_id;
      shots = j.shots;
      transpiler = some config;
      needs_update_transpiler_info = update;
      mitigation_info = convert_to_mitigation_info codec j.mitigation_info;
      status = convert_from_cloud_status j.status;
      created = or_else j.submitted_at 0;
      job_type = convert_job_type j.job_type;
      qasm = qasm;
      info = or_else j.operator "";
      result = record new_result { message = text (or_else j.message "not set in cloud job") };
    })
