-- ===== src/Jobs/Manual/Combine.antt =====
-- coreapp/multiprog/manual/job.go: `sendJobdata`, which asks the combiner for one program. The connection and
-- the request are the function `combine` of an address and a request; the two settings come from the
-- environment (coreapp/multiprog/manual/conf).
use Prim.Native.Char.{code}
use oqtopus_engine.Prelude.{ℕ, String, List, Outcome, ok, err, ◌>>=◌, str_eq, ◌==◌, if◌then◌else◌}
use oqtopus_engine.Prelude.Int.{ℤ, int32}
use oqtopus_engine.Core.Fault.{Fault, circuit_combine_failed}
use oqtopus_engine.Core.Data.{JobData, clone_job_data}

pub record Address : Type 0 where
  pub host : String
  pub port : String

pub record CombineRequest : Type 0 where
  pub qasm_array : String
  pub max_qubits : ℤ

-- The status of an answer; the second is any but success.
pub data CombineStatus : Type 0 where
  combine_success : CombineStatus
  combine_other : ℕ → CombineStatus

pub record CombineReply : Type 0 where
  pub combined_status : CombineStatus
  pub combined_qasm : String
  pub combined_qubits_list : List ℤ

-- `strings.ReplaceAll(s, "\n", "")`.
unfoldable pub without_newlines : String → String
without_newlines String.[] = String.[]
without_newlines (String.◌∷◌ c s) =
    let rest = without_newlines s in if code c == 10 then rest else String.◌∷◌ c rest

-- `strings.ReplaceAll(s, "\"", "\\\"")`.
unfoldable pub escape_quotes : String → String
escape_quotes String.[] = String.[]
escape_quotes (String.◌∷◌ c s) =
    let rest = escape_quotes s in
    if code c == 34 then String.◌∷◌ "\\" (String.◌∷◌ c rest) else String.◌∷◌ c rest

-- The address, with the defaults for what is not set.
unfoldable pub combiner_address : Address → Address
combiner_address a = record {
  host = if str_eq a.host "" then "localhost" else a.host;
  port = if str_eq a.port "" then "5002" else a.port;
}

unfoldable pub combine_request : ℤ → JobData → CombineRequest
unfolding without_newlines escape_quotes
combine_request max_qubits jd = record {
  qasm_array = escape_quotes (without_newlines jd.qasm);
  max_qubits = int32 max_qubits;
}

unfoldable pub read_reply : CombineReply → Outcome Fault (String × List ℤ)
read_reply r = elim r.combined_status [
  | combine_success ↦ ok (r.combined_qasm, r.combined_qubits_list)
  | combine_other n ↦ err circuit_combine_failed
]

-- The job data is copied first, which panics as `CloneJobData` does.
unfoldable pub send_jobdata :
    (Address → CombineRequest → Outcome Fault CombineReply)
    → Address
    → ℤ
    → ℕ
    → JobData
    → Outcome Fault (String × List ℤ)
unfolding combiner_address combine_request read_reply clone_job_data
send_jobdata combine address max_qubits now jd = clone_job_data now jd >>= λ copy.
    combine (combiner_address address) (combine_request max_qubits copy) >>= read_reply
