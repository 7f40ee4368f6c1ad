-- ===== src/Examples/Sse.antt =====
-- An SSE job whose container answers, and one whose volume cannot be removed.
use oqtopus_engine.Prelude.{ℕ, true, Option, none, some, [], ◌∷◌, ok, inl, ◌≡◌, refl, ◌⊎◌}
use oqtopus_engine.Prelude.Int.{pos}
use oqtopus_engine.Core.Fault.{Fault, external}
use oqtopus_engine.Core.Status.{ready}
use oqtopus_engine.Sse.Steps.{Op, volume_remove, ResultFile, output_read, Environment}
use oqtopus_engine.Sse.{run_sse}
use oqtopus_engine.Sse.Cleanup.{FailsEarly, IsCleanedUp, run_sse-IsCleanedUp}
use oqtopus_engine.Sse.Job.{SseJob, Container, sse_job}
use oqtopus_engine.Sse.Job.Scheduled.{NamesEnd, sse_job-Settled}
use oqtopus_engine.Scheduler.Handle.{handle_impl}
use oqtopus_engine.Scheduler.Handle.Settled.{Settled}
use oqtopus_engine.Prelude.{◌>>=◌}
use oqtopus_engine.Core.Status.{succeeded, to_string}
use oqtopus_engine.Core.Device.{DeviceInfo, available}
use oqtopus_engine.Core.Job.{done}
use oqtopus_engine.Core.Data.{JobData, new_job_data, new_result}
use oqtopus_engine.Core.Manager.{
  normal_job as normal_class, sse_job as sse_class, new_job_from_job_data, with_default_type,
  find_class, job_type,
}
use oqtopus_engine.Sse.Router.{
  Services, entries, transpile_and_exec, to_job, validate_job, run_job, to_job_data, validate_shots,
  choose_config, use_default_transpiler, transpile_first, execute, write_reply, int_of_uint,
}
use oqtopus_engine.Sse.Router.Runs.{Answers}
use oqtopus_engine.Sse.Router.Answers.{transpile_and_exec-Answers}
use oqtopus_engine.Examples.Samples.{job_in, idle_world, no_transpiler}

abbrev result_of_run : ResultFile
result_of_run = record {
  counts = (48 ∷ 48 ∷ [], 900) ∷ (49 ∷ 49 ∷ [], 100) ∷ [];
  stats_raw = "{}";
  virtual_physical_mapping_raw = "{}";
  transpiled_program = "h q[0];";
  message = "done";
  status = "succeeded";
  transpiler_info = no_transpiler;
}

-- The removal of the volume is refused.
abbrev refuses_volume : ℕ → Op → Option Fault
refuses_volume i volume_remove = some (external "volume is in use")
refuses_volume i _ = none

abbrev docker : Environment
docker = record {
  answer = refuses_volume;
  wait = λ i. output_read;
  exit_code = λ i. pos 0;
  timeout_message = "The SSE execution has timed out after 300 seconds.";
  is_exited = true;
  convert_json = λ jd. none;
  docker_client = none;
  user_program = none;
  extract_result = none;
  write_log = none;
  api_client = none;
  read_log = none;
  result_file = ok result_of_run;
  decode_mapping = λ s. (48 ∷ [], 1) ∷ [];
}

run_sse-IsCleanedUp_example :
    FailsEarly docker (run_sse docker (job_in ready))
    ⊎ IsCleanedUp docker (run_sse docker (job_in ready))
run_sse-IsCleanedUp_example = run_sse-IsCleanedUp docker (job_in ready)

abbrev machine : Container
machine = record {
  insert = λ jd. none;
  api_client = none;
  get_ssesrc = λ id. ok "cHJpbnQoMSk=";
  make_input_dir = none;
  make_output_dir = none;
  decode_base64 = λ s. some (112 ∷ []);
  write_file = λ b. none;
  environment = docker;
  execution_time = 5;
  now = 7;
}

abbrev program_job : SseJob
program_job = record { job_data = job_in ready; user_program_data = "" }

succeeds : NamesEnd docker
succeeds r q = inl (cc)

sse_job-Settled_example :
    Settled (sse_job machine) (handle_impl (sse_job machine) (λ i. true) program_job idle_world)
sse_job-Settled_example =
    sse_job-Settled machine succeeds (λ i. true) program_job idle_world refl refl

abbrev device : DeviceInfo
device = record {
  device_name = "dev";
  provider_name = "prov";
  type = "QPU";
  status = available;
  max_qubits = pos 4;
  max_shots = pos 10000;
  device_info_spec_json = "{}";
  calibrated_at = "";
}

-- What the device makes of a job.
abbrev ran_job : JobData → JobData
ran_job jd = record jd {
  status = succeeded;
  result = record (jd.result) {
    counts = (48 ∷ [], 600) ∷ (49 ∷ [], 400) ∷ [];
    transpiler_info = some (record {
      stats_raw = none;
      physical_virtual_mapping = [];
      virtual_physical_mapping_raw = some "{}";
      virtual_physical_mapping_map = [];
    });
  };
}

abbrev router : Services
router = record {
  unmarshal_request = λ t. ok (
      some
        (record { id = "job-1"; qasm = "h q[0];"; shots = 1000; transpiler = some no_transpiler }));
  unmarshal_map = λ t. some (entries 1);
  manager = record { acceptable_jobs = normal_class ∷ sse_class ∷ [] };
  job_context = none;
  device = some device;
  validate = λ q. none;
  marshal_transpiler = λ c. some "{\"transpiler_lib\":null}";
  transpile = λ jd. done jd;
  send = λ jd. done (ran_job jd);
  marshal_result = λ r. some "{\"counts\":{\"0\":600,\"1\":400}}";
  now = 7;
}

transpile_and_exec-Answers_example :
    Answers router "{\"id\":\"job-1\"}" (transpile_and_exec router "{\"id\":\"job-1\"}")
transpile_and_exec-Answers_example = transpile_and_exec-Answers router "{\"id\":\"job-1\"}"

-- The request is run.
answered_status :
    (transpile_and_exec router "{\"id\":\"job-1\"}" >>= λ r. ok (r.status)) ≡ ok "succeeded"
unfolding transpile_and_exec to_job validate_job run_job to_job_data new_job_from_job_data
    validate_shots choose_config use_default_transpiler transpile_first execute write_reply
    int_of_uint new_job_data new_result to_string with_default_type find_class job_type
answered_status = refl
