-- ===== src/Examples/Clients.antt =====
-- The transpiler's client, the lists for the estimator, the parameters of the poller and the device.
use oqtopus_engine.Prelude.{
  ℕ, zero, suc, String, true, false, Option, none, some, is_some, inl, [], ◌∷◌, map, ok, panic, ◌≡◌,
  refl, arith, ltb, ◌>>=◌,
}
use oqtopus_engine.Prelude.Int.{ℤ, pos}
use oqtopus_engine.Prelude.Dict.{Bytes, Dict, lookup, nat_eq, string_eq}
use oqtopus_engine.Core.Fault.{external, gateway_not_connected}
use oqtopus_engine.Core.Status.{ready, running}
use oqtopus_engine.Core.Mapping.{parse_uint, parse_digits, VirtualPhysicalMappingMap}
use oqtopus_engine.Core.Setting.{Value, text, number64, table}
use oqtopus_engine.Core.Data.{JobData, TranspilerInfo, set_failure}
use oqtopus_engine.Core.Job.{done}
use oqtopus_engine.Core.Device.{unavailable}
use oqtopus_engine.Core.Job.{Call}
use oqtopus_engine.Jobs.Estimation.Operators.{value_at, mapping_list}
use oqtopus_engine.Jobs.Estimation.Sorted.{range, mapping_list-range}
use oqtopus_engine.Poller.{Poller, Tick, polling, setup, get_jobs}
use oqtopus_engine.Poller.Params.{Params, set_params}
use oqtopus_engine.Poller.Params.Period.{
  poller_task, IsInStep, IsPositive, add_periodic_task-IsInStep,
}
use oqtopus_engine.Poller.Params.Refused.{set_params-int64}
use oqtopus_engine.Poller.Params.Durations.{IsReadable, bad_duration_panics}
use oqtopus_engine.RunGroup.{Running, add_periodic_task}
use oqtopus_engine.Qpu.Gateway.Send.{send}
use oqtopus_engine.Qpu.Gateway.{Services}
use oqtopus_engine.Qpu.Gateway.Polling.{
  DeviceSetting, GatewayQpu, Answers, polls, poll, setup as setup_qpu, unavailable_device,
}
use oqtopus_engine.Qpu.Gateway.{call_device_info, reset}
use oqtopus_engine.Qpu.Gateway.Polling.Availability.{unconnected_idle}
use oqtopus_engine.Transpiler.{
  Client, TranspileReply, transpile, transpile_request, reply_status, transpiled,
}
use oqtopus_engine.Transpiler.Mappings.{parse_all}
use oqtopus_engine.Transpiler.Transpiled.{IsTranspiled, transpile-IsTranspiled}
use oqtopus_engine.Examples.Samples.{job_in}

-- Two virtual qubits, in an order that is not ascending.
abbrev two_qubits : VirtualPhysicalMappingMap
two_qubits = (1, 5) ∷ (0, 7) ∷ []

covers : (y : ℕ) → is_some (lookup y two_qubits) ≡ ltb y 2
covers zero = refl
covers (suc zero) = refl
covers (suc (suc y)) = ground arith

mapping_list-range_example : mapping_list two_qubits ≡ map (value_at two_qubits) (range 0 2)
mapping_list-range_example =
    mapping_list-range 2 two_qubits (ground arith, refl, (ground arith, refl, tt)) covers

-- The keys "0" and "1".
abbrev named_qubits : Dict Bytes ℕ
named_qubits = (48 ∷ [], 7) ∷ (49 ∷ [], 5) ∷ []

abbrev reply : TranspileReply
reply = record {
  status = pos 0;
  transpiled_program = "x q[7];";
  virtual_physical_mapping = "{}";
  stats = "{}";
}

abbrev client : Client
client = record {
  transpile = λ r. ok reply;
  marshal_options = λ o. ok "null";
  device_info_spec_json = "{}";
  decode_qubits = λ t. ok ((48 ∷ [], pos 7) ∷ (49 ∷ [], pos 5) ∷ []);
  encode_qubits = λ m. ok "{\"0\":7,\"1\":5}";
}

abbrev no_info : TranspilerInfo
no_info = record {
  stats_raw = none;
  physical_virtual_mapping = [];
  virtual_physical_mapping_raw = none;
  virtual_physical_mapping_map = [];
}

abbrev to_transpile : JobData
to_transpile = record (job_in ready) {
  transpiler =
      some
        (record { transpiler_lib = some "qiskit"; transpiler_options = none; use_default = false });
  result = record ((job_in ready).result) { transpiler_info = some no_info };
}

keys_read : parse_all named_qubits ≡ some ((0, 7) ∷ (1, 5) ∷ [])
unfolding parse_uint parse_digits
keys_read = refl

answered : (transpile_request client to_transpile >>= client.transpile) ≡ ok reply
unfolding transpile_request
answered = refl

accepted : reply_status reply.status ≡ transpiled
unfolding reply_status
accepted = refl

transpile-IsTranspiled_example :
    (d : JobData) × (transpile client to_transpile ≡ done d)
    × IsTranspiled reply "{\"0\":7,\"1\":5}" named_qubits d
transpile-IsTranspiled_example =
    transpile-IsTranspiled client to_transpile reply no_info "{\"0\":7,\"1\":5}" named_qubits
      ((0, 7) ∷ (1, 5) ∷ []) answered accepted refl refl refl keys_read
      (ground arith, (ground arith, tt)) (refl, (refl, tt)) (refl, (refl, tt))

abbrev poller_of : ℤ → Poller
poller_of period = record {
  normal_period = period;
  idle_period = pos 100;
  max_retry = pos 3;
  current_period = pos 0;
  no_jobs_count = 0;
  state = polling;
}

abbrev no_answer : Tick String
no_answer = record {
  queue_is_over_refill_threshold = false;
  queue_size = 0;
  device_status = unavailable;
  response = inl (external "timeout");
}

add_periodic_task-IsInStep_example :
    (r : Running Poller) × (add_periodic_task poller_task
        (pos 10)
        no_answer
        (no_answer ∷ no_answer ∷ [])
        (setup (poller_of (pos 20)))
      ≡ ok r)
    × IsInStep r
    × IsPositive r.ticker
add_periodic_task-IsInStep_example =
    add_periodic_task-IsInStep (pos 10) (poller_of (pos 20)) no_answer no_answer (no_answer ∷ [])
      refl refl refl

abbrev params_of : ℤ → Params
params_of period = record {
  device = "dummy_device";
  edge = "dummy_edge";
  count = pos 10;
  region = "ap-northeast-1";
  endpoint = "localhost:8080";
  access_key = "hogehoge";
  secret_key = "fugafuga";
  session_token = "";
  api_key = "DefaultAPIKey";
  enable_test_mode = false;
  poller = record (poller_of period) { idle_period = pos 10000000000 };
}

abbrev no_duration : String → Option ℤ
no_duration s = none

-- A period without a unit.
abbrev bad_settings : Dict String Value
bad_settings = ("normal_period", text "10") ∷ []

-- Nothing else is set.
bad_settings-IsReadable : IsReadable bad_settings
bad_settings-IsReadable = record {
  device = λ v e. cc;
  edge = λ v e. cc;
  count = λ v e. cc;
  region = λ v e. cc;
  endpoint = λ v e. cc;
  access_key = λ v e. cc;
  secret_key = λ v e. cc;
  api_key = λ v e. cc;
  session_token = λ v e. cc;
  enable_test_mode = λ v e. cc;
  idle_period = λ v e. cc;
}

bad_duration_panics_example :
    (p : Params) × (set_params no_duration (some (table bad_settings)) (params_of (pos 5)) ≡ ok p)
    × (p.poller.normal_period ≡ pos 0)
    × (add_periodic_task poller_task (pos 10) no_answer (no_answer ∷ []) (setup p.poller) ≡ panic)
bad_duration_panics_example =
    bad_duration_panics no_duration bad_settings (params_of (pos 5)) "10" (pos 10) no_answer
      no_answer bad_settings-IsReadable refl refl refl refl refl

set_params-int64_example :
    set_params no_duration (some (table (("count", number64 (pos 5)) ∷ []))) (params_of (pos 5))
    ≡ panic
set_params-int64_example =
    set_params-int64 no_duration (("count", number64 (pos 5)) ∷ []) (params_of (pos 5)) (pos 5) refl
      refl

abbrev device_setting : DeviceSetting
device_setting = record {
  device_name = "wako";
  device_type = "";
  provider_name = "";
  max_shots = pos 0;
  machine_host = "localhost";
  machine_port = "50051";
  polling_period = 60;
  use_cred = false;
}

abbrev api : Services
api = record { parse_time = λ t. none; accepts = λ r. true }

abbrev set_up : GatewayQpu
set_up = record {
  agent = record { last_device_info = none; requests = [] };
  device_setting = device_setting;
  connected = false;
  current_device_info = unavailable_device;
}

set_up_run : setup_qpu (ok device_setting) (ok set_up.agent) ≡ ok set_up
unfolding setup_qpu
set_up_run = refl

abbrev silent : Answers
silent = record { device = none; service = none; reconnects = false }

down : (polls api (silent ∷ []) set_up).connected ≡ false
unfolding polls poll call_device_info reset
down = refl

unavailable_down : unavailable ≡ (polls api (silent ∷ []) set_up).current_device_info.status
unfolding polls poll call_device_info reset
unavailable_down = refl

unconnected_idle_example :
    ((get_jobs no_answer).0 ≡ [])
    × (send (polls api (silent ∷ []) set_up).connected 7 done (job_in running)
        ≡ Call.failed gateway_not_connected (set_failure 7 gateway_not_connected (job_in running)))
unconnected_idle_example =
    unconnected_idle api (ok device_setting) (ok set_up.agent) set_up (silent ∷ []) no_answer 7 done
      (job_in running) set_up_run down unavailable_down
