-- ===== src/Converter/Outgoing.antt =====
-- coreapp/oas/converter.go: `ConvertToCloudJob`, job data to a job of the cloud's API. A count is sent as
-- the text of its number, and is given as the number. `Encoder` holds what is asked of encoding/json.
use oqtopus_engine.Prelude.{
  ℕ, String, Bool, ◌||◌, Option, none, some, List, [], ◌∷◌, str_eq, or_else, if◌then◌else◌, ◌==◌,
}
use oqtopus_engine.Prelude.Int.{ℤ}
use oqtopus_engine.Prelude.Dict.{Dict, lookup, string_eq}
use oqtopus_engine.Core.Data.{
  Counts, DividedResult, Estimation, TranspilerConfig, TranspilerInfo, JobData, Message, is_done,
}
use oqtopus_engine.Converter.{convert_to_api_status}
use oqtopus_engine.Converter.Cloud.{
  CloudStatus, CloudJobType, sampling, estimation, OptNil, unset, null, set, RawMap,
}

-- `none` is an error.
pub record Encoder : Type 0 where
  pub decode_raw_map : String → Option RawMap
  pub decode_texts : String → Option (Dict String String)
  pub encode_config : Option TranspilerConfig → Option RawMap

pub record SamplingResult : Type 0 where
  pub counts : Counts
  pub divided_counts : OptNil DividedResult

-- Both fields are set, or neither is.
pub record JobsJobResult : Type 0 where
  pub sampling_result : OptNil SamplingResult
  pub estimation_result : OptNil (Option Estimation)

pub record TranspileResult : Type 0 where
  pub transpiled_program : String
  pub stats : Option RawMap
  pub virtual_physical_mapping : Option RawMap

pub record OutgoingJob : Type 0 where
  pub job_id : String
  pub job_type : CloudJobType
  pub shots : ℤ
  pub transpiler_info : RawMap
  pub status : CloudStatus
  pub program : List String
  pub result : JobsJobResult
  pub transpile_result : OptNil TranspileResult
  pub message : Message
  pub combined_program : String
  pub execution_time : OptNil ℕ

abbrev pub is_sampling : String → Bool
is_sampling t = str_eq t "sampling" || str_eq t "multi_manual" || str_eq t "sse"

-- The job type of the API, and the result for it.
unfoldable pub convert_result : JobData → CloudJobType × JobsJobResult
convert_result j =
    if is_sampling j.job_type
    then (
      sampling,
      record {
        sampling_result = set (record {
          counts = j.result.counts;
          divided_counts =
              if str_eq j.job_type "multi_manual"
              then set (or_else j.result.divided_result [])
              else unset;
        });
        estimation_result = null;
      },
    )
    else if str_eq j.job_type "estimation_job"
    then (
      estimation,
      record { sampling_result = unset; estimation_result = set j.result.estimation },
    )
    else (sampling, record { sampling_result = unset; estimation_result = unset })

-- The combined program of a finished multi_manual job, and the job data with the original programs.
unfoldable pub extract_combined : Encoder → JobData → JobData × String
extract_combined encoder j =
    if str_eq j.job_type "multi_manual"
    then (if is_done j.status
        then elim (encoder.decode_texts j.qasm) [
          | none ↦ (j, "")
          | some m ↦ (
            record j { qasm = or_else (lookup "original_qasms" m) "" },
            or_else (lookup "combined_qasm" m) "",
          )
        ]
        else (j, ""))
    else (j, "")

-- A raw object: absent, empty and unreadable texts give the empty map.
unfoldable pub read_raw : Encoder → Option String → RawMap
read_raw encoder none = []
read_raw encoder (some raw) = if str_eq raw "" then [] else or_else (encoder.decode_raw_map raw) []

unfoldable pub convert_transpile_result :
    Encoder → String → Option TranspilerInfo → OptNil TranspileResult
unfolding read_raw
convert_transpile_result encoder transpiled none = null
convert_transpile_result encoder transpiled (some ti) = set (record {
  transpiled_program = transpiled;
  stats = some (read_raw encoder ti.stats_raw);
  virtual_physical_mapping = some (read_raw encoder ti.virtual_physical_mapping_raw);
})

-- The job data is changed for a multi_manual job. An execution time is null where it is 0.
unfoldable pub convert_to_cloud_job : Encoder → JobData → JobData × OutgoingJob
unfolding convert_result extract_combined convert_transpile_result convert_to_api_status
convert_to_cloud_job encoder j =
    let (ty, result) = convert_result j in
    let (j1, combined) = extract_combined encoder j in
    (
      j1,
      record {
        job_id = j.id;
        job_type = ty;
        shots = j.shots;
        transpiler_info = or_else (encoder.encode_config j.transpiler) [];
        status = convert_to_api_status j.status;
        program = j1.qasm ∷ [];
        result = result;
        transpile_result =
            convert_transpile_result encoder j.transpiled_qasm j.result.transpiler_info;
        message = j.result.message;
        combined_program = combined;
        execution_time = if j.result.execution_time == 0 then null else set j.result.execution_time;
      },
    )
