-- ===== src/Examples/Samples.antt =====
-- Jobs, a queue and services that the examples share.
use oqtopus_engine.Prelude.{
  ℕ, ◌<◌, Outcome, ok, true, false, Option, none, some, List, [], ◌∷◌, ◌++◌, ◌≡◌, ◌≢◌, refl, arith,
  length, get_elem?, ltb, if◌then◌else◌,
}
use oqtopus_engine.Prelude.Int.{pos}
use oqtopus_engine.Core.Status.{Status}
use oqtopus_engine.Core.Data.{JobData, JobResult, TranspilerConfig, text}
use oqtopus_engine.Core.Manager.{Environment}
use oqtopus_engine.Core.Fault.{Fault, external}
use oqtopus_engine.Core.Job.{done}
use oqtopus_engine.Core.Status.{succeeded}
use oqtopus_engine.Scheduler.Handle.{World}
use oqtopus_engine.Qpu.Gateway.Send.{JobRequest, JobReply, JobStatus, job_success}
use oqtopus_engine.Jobs.Manual.{ManualJob, Services}
use oqtopus_engine.Jobs.Manual.Combine.{combine_success}
use oqtopus_engine.Scheduler.Queue.{Fifo, remove_at}

module _ {A : Type 0} where
  abbrev pub push : A → List A → Option (List A)
  push a q = some (q ++ a ∷ [])

  abbrev pub pop : List A → Option (A × List A)
  pop [] = none
  pop (x ∷ xs) = some (x, xs)

  abbrev pub drop_at : ℕ → List A → Option (List A)
  drop_at i q = if ltb i (length q) then some (remove_at i q) else none

  pub push_lem : (a : A) (q r : List A) → push a q ≡ some r → r ≡ q ++ a ∷ []
  push_lem a q r h = cc

  pub pop-some : (a : A) (q r : List A) → pop q ≡ some (a, r) → q ≡ a ∷ r
  pop-some a [] r h = cc
  pop-some a (x ∷ xs) r h = cc

  pub pop-none : (q : List A) → pop q ≡ none → ◌≡◌ {A = List A} q []
  pop-none [] h = refl
  pop-none (x ∷ xs) h = cc

  pub drop_at_lem : (i : ℕ) (q r : List A) → drop_at i q ≡ some r → r ≡ remove_at i q
  drop_at_lem i q r h = ground arith

  pub drop_in_range : (i : ℕ) (q : List A) → i < length q → drop_at i q ≢ none
  drop_in_range i q h e = ground arith

-- A queue that is a list.
abbrev pub list_fifo : (A : Type 0) → Fifo A
list_fifo A = record {
  Store = List A;
  items = λ q. q;
  enqueue = push;
  dequeue = pop;
  get = λ i q. get_elem? q i;
  get_len = length;
  remove = drop_at;
  enqueue_lem = push_lem _ _ _;
  dequeue_some = pop-some _ _ _;
  dequeue_none = pop-none _;
  get_lem = λ i q. refl;
  get_len_lem = λ q. refl;
  remove_lem = drop_at_lem _ _ _;
  remove_in_range = drop_in_range;
}

abbrev pub no_transpiler : TranspilerConfig
no_transpiler = record { transpiler_lib = none; transpiler_options = none; use_default = false }

abbrev pub empty_result : JobResult
empty_result = record {
  counts = [];
  divided_result = none;
  transpiler_info = none;
  estimation = none;
  message = text "";
  execution_time = 0;
}

-- A job that a cloud has sent, in this status.
abbrev pub job_in : Status → JobData
job_in st = record {
  id = "job-1";
  status = st;
  shots = pos 1000;
  transpiler = some no_transpiler;
  qasm = "h q[0];";
  transpiled_qasm = "";
  result = empty_result;
  job_type = "normal";
  created = 1;
  ended = 0;
  info = "";
  mitigation_info = "";
  use_job_info_update = false;
  needs_update_transpiler_info = false;
}

abbrev pub small_device : Environment
small_device = record { max_shots = pos 10000; is_acceptable_transpiler_lib = λ lib. true }

abbrev pub idle_world : World
idle_world = record { status_history = []; sent = [] }

-- A gateway that answers every job with success and one bit string.
abbrev pub ideal_gateway : JobRequest → Outcome Fault JobReply
ideal_gateway r = ok (record {
  status = job_success;
  result = some (record { counts = (48 ∷ 49 ∷ [], 1000) ∷ []; message = "ok" });
})

abbrev pub unknown_reply : JobStatus → Fault
unknown_reply s = external "unknown status"

abbrev pub manual_services : Services
manual_services = record {
  environment = small_device;
  insert_job = λ d. none;
  combine = λ a r. ok (record {
    combined_status = combine_success;
    combined_qasm = "qubit[3] q;";
    combined_qubits_list = pos 1 ∷ pos 2 ∷ [];
  });
  combiner = record { host = ""; port = "" };
  max_qubits = pos 4;
  transpile = done;
  send = done;
  decode_qasms = λ t. none;
  encode_qasms = λ c o. ok "{}";
  decode_mapping = λ t. [];
  now = 9;
}

abbrev pub combined : ManualJob
combined = record {
  job_data = job_in succeeded;
  combined_qubits_list = pos 1 ∷ pos 2 ∷ [];
  combined_qasm = "qubit[3] q;";
  original_qasms = "[]";
  post_processed = false;
}
