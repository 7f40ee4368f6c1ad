-- ===== src/Sse/Router.antt =====
-- coreapp/sse/router/sse_gateway_router.go: `TranspileAndExec`, which transpiles and runs a circuit for a program in
-- a container. The services are those that the engine's container resolves; a call of one changes the job.
pub mod Runs
pub mod Answers
use oqtopus_engine.Prelude.{
  ℕ, String, Bool, true, false, Option, none, some, is_some, Outcome, ok, err, panic, ◌>>=◌, ltb,
  or_panic, str_eq, if◌then◌else◌,
}
use oqtopus_engine.Prelude.Int.{ℤ, pos, sub_ℕ, ltb_ℤ}
use oqtopus_engine.Core.Fault.{
  Fault, body_is_empty, device_info_is_nil, shots_not_positive, shots_over_limit,
}
use oqtopus_engine.Core.Status.{Status, failed, is_failed, to_string}
use oqtopus_engine.Core.Data.{JobData, Counts, TranspilerConfig, Message, new_job_data}
use oqtopus_engine.Core.Device.{DeviceInfo}
use oqtopus_engine.Core.Job.{Call, done}
use oqtopus_engine.Core.Manager.{JobManager, JobClass, new_job_from_job_data}
use oqtopus_engine.Converter.{default_transpiler_config}

pub record UserReqData : Type 0 where
  pub id : String
  pub qasm : String
  pub shots : ℕ
  pub transpiler : Option TranspilerConfig

-- The raw JSON of a transpilation.
pub record TranspilerTexts : Type 0 where
  pub stats : String
  pub virtual_physical_mapping : String

-- The fields of `Result` that are set.
pub record ExecResult : Type 0 where
  pub counts : Counts
  pub transpiler_info : TranspilerTexts
  pub message : Message

-- The value of the key transpiler_info of a JSON object.
pub data TranspilerValue : Type 0 where
  missing null not_a_map : TranspilerValue
  entries : ℕ → TranspilerValue

-- The text of a response.
pub data Notice : Type 0 where
  no_notice empty_data invalid_data transpile_failed execute_failed marshal_failed : Notice
  invalid_shots invalid_qasm transpile_error : Fault → Notice
  of_result : Message → Notice

pub record Response : Type 0 where
  pub status : String
  pub notice : Notice
  pub transpiler_info : String
  pub transpiled_qasm : String
  pub result : String

pub record Services : Type 0 where
  -- `json.Unmarshal` into a pointer, which the text null leaves nil
  pub unmarshal_request : String → Outcome Fault (Option UserReqData)
  -- `none` where the text is not an object
  pub unmarshal_map : String → Option TranspilerValue
  pub manager : JobManager
  pub job_context : Option Fault
  pub device : Option DeviceInfo
  pub validate : String → Option Fault
  pub marshal_transpiler : TranspilerConfig → Option String
  pub transpile : JobData → Call JobData
  pub send : JobData → Call JobData
  pub marshal_result : ExecResult → Option String
  pub now : ℕ

-- The conversion of a uint to an int of 64 bits.
unfoldable pub int_of_uint : ℕ → ℤ
int_of_uint n = if ltb n 9223372036854775808 then pos n else sub_ℕ n 18446744073709551616

-- A reply is `err` where the call returns an error, and `panic` where it panics.
abbrev pub Reply : Type 0
Reply = Outcome Fault Response

abbrev pub failed_response : Response
failed_response = record {
  status = to_string failed;
  notice = no_notice;
  transpiler_info = "";
  transpiled_qasm = "";
  result = "";
}

abbrev pub reject : Response → Notice → Reply
reject r n = ok (record r { notice = n })

unfoldable pub validate_shots : ℤ → Option DeviceInfo → Option Fault
validate_shots shots none = some device_info_is_nil
validate_shots shots (some d) =
    if ltb_ℤ shots (pos 1)
    then some (shots_not_positive shots)
    else if ltb_ℤ d.max_shots shots
    then some (shots_over_limit shots d.max_shots)
    else none

abbrev pub raw_or_empty : Option String → String
raw_or_empty none = "{}"
raw_or_empty (some t) = if str_eq t "" then "{}" else t

abbrev pub text_or_blank : Option String → String
text_or_blank none = ""
text_or_blank (some t) = t

module _ (s : Services) where
  unfoldable pub to_job_data : String → Outcome Fault JobData
  unfolding int_of_uint new_job_data
  to_job_data body =
      if str_eq body ""
      then err body_is_empty
      else s.unmarshal_request body >>= λ o. or_panic o >>= λ u. ok (record (new_job_data s.now) {
        id = u.id;
        qasm = u.qasm;
        shots = int_of_uint u.shots;
        transpiler = u.transpiler;
      })

  unfoldable pub to_job : String → Outcome Fault (JobClass × JobData)
  unfolding to_job_data new_job_from_job_data
  to_job body = to_job_data body >>= λ jd. elim s.job_context [
    | some f ↦ err f
    | none ↦ new_job_from_job_data s.manager (record jd { job_type = "sse" })
  ]

  -- `useDefaultTranspiler`.
  unfoldable pub use_default_transpiler : String → Outcome Fault Bool
  use_default_transpiler body = if str_eq body "" then ok true else elim (s.unmarshal_map body) [
    | none ↦ ok true
    | some missing ↦ ok false
    | some null ↦ ok true
    | some not_a_map ↦ panic
    | some (entries n) ↦ ok (ltb n 1)
  ]

  -- The configuration of the transpiler.
  unfoldable pub choose_config : String → Option TranspilerConfig → Outcome Fault TranspilerConfig
  unfolding use_default_transpiler
  choose_config body none = ok default_transpiler_config
  choose_config body (some c) =
      use_default_transpiler body >>= λ b. ok (if b then default_transpiler_config else c)

  -- From the result of the device on.
  unfoldable pub write_reply : Response → JobData → Reply
  unfolding to_string
  write_reply r jd = or_panic jd.result.transpiler_info >>= λ ti.
      elim (s.marshal_result (record {
        counts = jd.result.counts;
        transpiler_info = record {
          stats = raw_or_empty ti.stats_raw;
          virtual_physical_mapping = raw_or_empty ti.virtual_physical_mapping_raw;
        };
        message = jd.result.message;
      }))
        as (λ _. Reply) [
          | none ↦ reject r marshal_failed
          | some t ↦ ok (record r {
            result = t;
            notice = of_result jd.result.message;
            status = to_string jd.status;
          })
        ]

  -- From the call of the device on.
  unfoldable pub execute : Response → JobData → Reply
  unfolding write_reply
  execute r jd =
      let r1 = record r { transpiled_qasm = jd.transpiled_qasm } in
      elim (s.send jd) as (λ _. Reply) [
        | Call.failed f d ↦ reject r1 execute_failed
        | Call.panicked d ↦ panic
        | done d ↦ if is_failed d.status then reject r1 execute_failed else write_reply r1 d
      ]

  -- From the transpiler on.
  unfoldable pub transpile_first : Response → TranspilerConfig → JobData → Reply
  unfolding execute
  transpile_first r c jd =
      if is_some c.transpiler_lib
      then elim (s.transpile jd) as (λ _. Reply) [
        | Call.failed f d ↦ reject r (transpile_error f)
        | Call.panicked d ↦ panic
        | done d ↦ if is_failed d.status then reject r transpile_failed else execute r d
      ]
      else execute r jd

  -- A job that is validated.
  unfoldable pub run_job : String → JobData → Reply
  unfolding choose_config transpile_first
  run_job body jd = choose_config body jd.transpiler >>= λ c.
      transpile_first
        (record failed_response { transpiler_info = text_or_blank (s.marshal_transpiler c) }) c
        (record jd { transpiler = some c })

  -- From the validation on.
  unfoldable pub validate_job : String → JobData → Reply
  unfolding validate_shots run_job
  validate_job body jd = elim (validate_shots jd.shots s.device) as (λ _. Reply) [
    | some f ↦ reject failed_response (invalid_shots f)
    | none ↦ elim (s.validate jd.qasm) as (λ _. Reply) [
      | some f ↦ reject failed_response (invalid_qasm f)
      | none ↦ run_job body jd
    ]
  ]

  unfoldable pub transpile_and_exec : String → Reply
  unfolding to_job validate_job
  transpile_and_exec body =
      if str_eq body ""
      then reject failed_response empty_data
      else elim (to_job body) as (λ _. Reply) [
        | err f ↦ reject failed_response invalid_data
        | panic ↦ panic
        | ok (k, jd) ↦ validate_job body jd
      ]
