-- ===== src/Examples/Polling.antt =====
-- The poller and the jobs that it fetches.
use oqtopus_engine.Prelude.{
  String, true, false, none, some, List, [], ◌∷◌, ok, ◌≡◌, refl, arith, ◌≢◌, length, inl, inr, ◌⊎◌,
}
use oqtopus_engine.Prelude.Int.{pos}
use oqtopus_engine.Core.Fault.{Fault, external}
use oqtopus_engine.Core.Device.{available}
use oqtopus_engine.Core.Status.{ready}
use oqtopus_engine.Core.Data.{JobData, text}
use oqtopus_engine.Core.Manager.{JobManager, JobClass, normal_job, sampling_job}
use oqtopus_engine.Converter.{
  Codec, CloudJob, CloudStatus, CloudJobType, sampling, unset, convert_transpiler,
  convert_from_cloud_job,
}
use oqtopus_engine.Converter.Intake.{Converts, convert_from_cloud_job-Converts}
use oqtopus_engine.Poller.{Poller, polling, Tick, get_jobs, pass_polling_condition, task, run}
use oqtopus_engine.Poller.Cadence.{IsSteady, After, run-empty}
use oqtopus_engine.Poller.Client.{to_job_slice, to_job_slice_from, make_job, assign_type}
use oqtopus_engine.Poller.Client.Slices.{ServesEach, to_job_slice-Serves}
use oqtopus_engine.Examples.Samples.{small_device}

abbrev tick_of : Fault ⊎ List String → Tick String
tick_of r = record {
  queue_is_over_refill_threshold = false;
  queue_size = 0;
  device_status = available;
  response = r;
}

-- A poller that has just been set up.
abbrev new_poller : Poller
new_poller = record {
  normal_period = pos 10;
  idle_period = pos 60;
  max_retry = pos 2;
  current_period = pos 10;
  no_jobs_count = 0;
  state = polling;
}

abbrev three_failures : List (Tick String)
three_failures = tick_of (inr []) ∷ tick_of (inl (external "down")) ∷ tick_of (inr []) ∷ []

run-empty_example : After (length three_failures) (run three_failures new_poller)
unfolding get_jobs
run-empty_example = run-empty three_failures new_poller (refl, (refl, (refl, tt))) refl

new_poller-IsSteady : IsSteady new_poller
new_poller-IsSteady = ground arith

hands_over : (task (tick_of (inr ("a" ∷ []))) new_poller).1 ≢ []
unfolding task get_jobs pass_polling_condition
hands_over h = ground arith

-- A codec that decodes nothing.
abbrev no_codec : Codec
no_codec = record {
  decode_transpiler = λ m. none;
  marshal_raw_map = λ m. none;
  marshal_programs = λ ps. none;
}

abbrev cloud_job : String → CloudJobType → CloudJob
cloud_job id ty = record {
  job_id = id;
  shots = pos 100;
  status = CloudStatus.ready;
  job_type = ty;
  transpiler_info = unset;
  mitigation_info = unset;
  submitted_at = some 5;
  program = "h q[0];" ∷ [];
  operator = none;
  message = some "";
}

convert_from_cloud_job-Converts_example :
    Converts no_codec
      (cloud_job "a" sampling)
      (convert_from_cloud_job no_codec 9 (cloud_job "a" sampling))
convert_from_cloud_job-Converts_example =
    convert_from_cloud_job-Converts no_codec 9 (cloud_job "a" sampling)

abbrev manager : JobManager
manager = record { acceptable_jobs = normal_job ∷ sampling_job ∷ [] }

-- The job data of a cloud job, of this type in the engine.
abbrev fetched : String → String → JobData
fetched id ty = record {
  id = id;
  status = ready;
  shots = pos 100;
  transpiler = some (record {
    transpiler_lib = some "qiskit";
    transpiler_options = some "{\"optimization_level\":1}";
    use_default = true;
  });
  qasm = "h q[0];";
  transpiled_qasm = "";
  result = record {
    counts = [];
    divided_result = none;
    transpiler_info = some (record {
      stats_raw = none;
      physical_virtual_mapping = [];
      virtual_physical_mapping_raw = none;
      virtual_physical_mapping_map = [];
    });
    estimation = none;
    message = text "";
    execution_time = 0;
  };
  job_type = ty;
  created = 5;
  ended = 0;
  info = "";
  mitigation_info = "{}";
  use_job_info_update = false;
  needs_update_transpiler_info = true;
}

known_run :
    to_job_slice no_codec small_device manager 9 true
      (cloud_job "a" sampling ∷ cloud_job "b" sampling ∷ [])
    ≡ ok ((sampling_job, fetched "a" "sampling") ∷ (sampling_job, fetched "b" "sampling") ∷ [])
unfolding to_job_slice to_job_slice_from make_job assign_type convert_from_cloud_job
    convert_transpiler
known_run = refl

abbrev two_jobs : List CloudJob
two_jobs = cloud_job "a" sampling ∷ cloud_job "b" sampling ∷ []

to_job_slice-Serves_example :
    (out : List (JobClass × JobData)) × (to_job_slice no_codec small_device manager 9 true two_jobs
      ≡ ok out)
    × ServesEach two_jobs out
to_job_slice-Serves_example =
    to_job_slice-Serves no_codec small_device manager 9 ((λ e. cc), ((λ e. cc), tt)) two_jobs
      (refl, (refl, tt)) (inl (λ e. cc), (inl (λ e. cc), tt))
