-- ===== src/Examples/Scheduling.antt =====
-- Combined, sampling and estimation jobs in the scheduler.
use oqtopus_engine.Prelude.{true, false, none, some, [], ◌∷◌, ok, ◌≡◌, refl}
use oqtopus_engine.Prelude.Int.{pos}
use oqtopus_engine.Core.Status.{ready, running, succeeded, failed}
use oqtopus_engine.Core.Job.{Call, done, returned, panicked}
use oqtopus_engine.Scheduler.Handle.{
  World, stop, to_queue, handle_impl, set_status, set_use_job_info_update,
}
use oqtopus_engine.Scheduler.Handle.Settled.{Settled, handle_impl-Settled}
use oqtopus_engine.Qpu.Gateway.Send.{call_job, send}
use oqtopus_engine.Qpu.Gateway.Send.Laws.{send-IsFinal}
use oqtopus_engine.Mitigation.{Json, Mitigator}
use oqtopus_engine.Mitigation.Ends.{IsMitigated, pseudo_inverse-IsMitigated}
use oqtopus_engine.Mitigation.{pseudo_inverse_mitigation}
use oqtopus_engine.Jobs.Manual.{ManualJob, manual_job}
use oqtopus_engine.Jobs.Manual.Scheduled.{manual_job-Settles, manual_job-KeepsFlag}
use oqtopus_engine.Jobs.Sampling.{SamplingJob, Container, sampling_job}
use oqtopus_engine.Jobs.Sampling.Scheduled.{sampling_job-Settled}
use oqtopus_engine.Jobs.Estimation.State.{EstimationJob, Services}
use oqtopus_engine.Jobs.Estimation.{
  estimation_job, process, process_from, set_program, post_process, mitigate_all, take_estimation,
}
use oqtopus_engine.Jobs.Estimation.Counted.{EndsEstimated, post_process-EndsEstimated}
use oqtopus_engine.Jobs.Estimation.Scheduled.{after_panic, process_panic_is_post_processed}
use oqtopus_engine.Examples.Samples.{
  job_in, idle_world, ideal_gateway, unknown_reply, manual_services, combined,
}

abbrev ready_combined : ManualJob
ready_combined = record combined { job_data = job_in ready }

handle_impl-Settled_example :
    Settled
      (manual_job manual_services)
      (handle_impl (manual_job manual_services) (λ i. true) ready_combined idle_world)
handle_impl-Settled_example =
    handle_impl-Settled (manual_job manual_services) (manual_job-Settles manual_services)
      (manual_job-KeepsFlag manual_services) (λ i. true) ready_combined idle_world refl refl

abbrev json : Json
json = record {
  valid = λ t. true;
  properties = λ t. some (("ro_error_mitigation", "\"pseudo_inverse\"") ∷ []);
}

-- A mitigator that answers with one bit string of three bits.
abbrev mitigator : Mitigator
mitigator = record {
  settings = none;
  dial = λ a. true;
  request = λ a r. ok ((48 ∷ 48 ∷ 49 ∷ [], pos 998) ∷ []);
  device_info_spec_json = "{}";
  decode_spec = λ t. ok (record { device_id = "device"; qubits = [] });
  to_float32 = λ x. x;
}

abbrev sampling : Container
sampling = record {
  transpile = done;
  send = send true 7 (call_job ideal_gateway unknown_reply 3);
  json = json;
  mitigator = mitigator;
  now = 7;
}

abbrev sampled : SamplingJob
sampled = record {
  job_data = record (job_in ready) { mitigation_info = "{}" };
  mitigation_info = none;
}

sampling_job-Settled_example :
    Settled
      (sampling_job sampling)
      (handle_impl (sampling_job sampling) (λ i. true) sampled idle_world)
sampling_job-Settled_example =
    sampling_job-Settled sampling (λ jd. send-IsFinal ideal_gateway unknown_reply true 7 3 jd)
      (λ i. true) sampled idle_world refl refl

pseudo_inverse-IsMitigated_example :
    IsMitigated mitigator
      (job_in succeeded)
      (pseudo_inverse_mitigation mitigator (job_in succeeded))
pseudo_inverse-IsMitigated_example = pseudo_inverse-IsMitigated mitigator (job_in succeeded)

-- A device that panics, as for a reply without a result.
abbrev panicking : Services
panicking = record {
  insert_job = λ d. none;
  transpile = done;
  send = Call.panicked;
  json = json;
  mitigator = mitigator;
  decode_operators = λ t. ok [];
  format_g = λ x. "1";
  decode_mapping = λ t. [];
  estimator_pre = λ a r. ok (record { qasm_codes = []; grouped_operators = "" });
  estimator_post = λ a r. ok (record { exp_value = 1; stds = 2 });
  now = 7;
}

abbrev estimated : EstimationJob
estimated = record {
  setting = record { host = "localhost"; port = "5012"; basis_gates = [] };
  job_data = job_in ready;
  preprocessed_qasms = "qubit[1] q;" ∷ [];
  orig_operators = "[]";
  grouped_operators = "[]";
  counts_list = [];
  use_transpiler = false;
  used_qasm = "qubit[1] q;";
  finished = false;
}

post_process-EndsEstimated_example :
    EndsEstimated panicking estimated (post_process panicking estimated)
post_process-EndsEstimated_example = post_process-EndsEstimated panicking estimated

abbrev left_running : EstimationJob
left_running = record estimated { job_data = record (job_in running) { qasm = "qubit[1] q;" } }

-- The job after its post-processing: it is SUCCEEDED.
abbrev overwritten : EstimationJob
overwritten = record estimated {
  job_data = record (job_in succeeded) {
    qasm = "qubit[1] q;";
    result = record ((job_in succeeded).result) {
      estimation = some (record { exp_value = 1; stds = 2 });
    };
    use_job_info_update = true;
  };
  finished = true;
}

panic_run :
    process panicking (set_status (estimation_job panicking) running estimated)
    ≡ panicked left_running
unfolding process process_from set_program set_status
panic_run = refl

post_run : post_process panicking (after_panic panicking left_running) ≡ returned overwritten
unfolding post_process mitigate_all take_estimation set_status set_use_job_info_update
post_run = refl

process_panic_is_post_processed_example :
    (w' : World) × (to_queue (estimation_job panicking) true estimated idle_world
      ≡ stop overwritten w')
    × (w'.sent
        ≡ overwritten.job_data
          ∷ record (left_running.job_data) { status = failed }
          ∷ record (estimated.job_data) { status = running }
          ∷ [])
process_panic_is_post_processed_example =
    process_panic_is_post_processed panicking estimated left_running overwritten idle_world refl
      panic_run post_run
