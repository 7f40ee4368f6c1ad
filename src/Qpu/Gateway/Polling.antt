-- ===== src/Qpu/Gateway/Polling.antt =====
-- coreapp/qpu/qpu.go: `GatewayQPU.Setup` and the goroutine of `startDevicePolling`, which asks the gateway for the
-- device again and again; coreapp/qpu/device.go: the settings of the device. Reading the settings and the
-- set-up of the agent are parameters.
pub mod Availability
use oqtopus_engine.Prelude.{
  ℕ, String, Bool, true, false, ◌||◌, Option, none, some, List, [], ◌∷◌, Outcome, ok, err, panic,
  ◌>>=◌, or_panic, str_eq, if◌then◌else◌,
}
use oqtopus_engine.Prelude.Int.{ℤ, pos}
use oqtopus_engine.Prelude.Dict.{Dict}
use oqtopus_engine.Core.Fault.{Fault, gateway_setting_not_found, unknown_device_name}
use oqtopus_engine.Core.Device.{DeviceInfo, unavailable}
use oqtopus_engine.Core.Setting.{
  Settings, Value, ComponentSetting, table, no_table, get_component_setting, string_at,
}
use oqtopus_engine.Core.Address.{valid_address}
use oqtopus_engine.Qpu.Gateway.{Agent, Services, ServiceStatus, call_device_info, reset}

pub record DeviceSetting : Type 0 where
  pub device_name : String
  pub device_type : String
  pub provider_name : String
  pub max_shots : ℤ
  pub machine_host : String
  pub machine_port : String
  pub polling_period : ℕ
  pub use_cred : Bool

-- `NewDeviceSetting`, without the lists for the filter of statements, which are empty.
unfoldable pub new_device_setting : DeviceSetting
new_device_setting = record {
  device_name = "";
  device_type = "";
  provider_name = "";
  max_shots = pos 0;
  machine_host = "localhost";
  machine_port = "50051";
  polling_period = 60;
  use_cred = false;
}

-- `LoadDeviceSetting`: without a file the defaults are used.
unfoldable pub load_device_setting :
    Option String
    → (String → DeviceSetting → Outcome Fault DeviceSetting)
    → Outcome Fault DeviceSetting
unfolding new_device_setting
load_device_setting none decode = ok new_device_setting
load_device_setting (some blob) decode = decode blob new_device_setting

pub record AgentSetting : Type 0 where
  pub gateway_host : String
  pub gateway_port : String
  pub api_endpoint : String
  pub api_key : String
  pub device_id : String

-- `NewDefaultGatewayAgentSetting`.
unfoldable pub new_agent_setting : AgentSetting
new_agent_setting = record {
  gateway_host = "localhost";
  gateway_port = "50051";
  api_endpoint = "https://localhost";
  api_key = "your_api_key";
  device_id = "your_device_id";
}

-- The setting that the agent's `Setup` reads: each entry has to be a text.
unfoldable pub agent_setting : Settings → Outcome Fault AgentSetting
unfolding get_component_setting new_agent_setting string_at
agent_setting s = elim (get_component_setting "gateway" s) [
  | none ↦ err gateway_setting_not_found
  | some no_table ↦ ok new_agent_setting
  | some (table m) ↦ or_panic (string_at "gateway_host" m) >>= λ host.
      or_panic (string_at "gateway_port" m) >>= λ port.
      or_panic (string_at "api_endpoint" m) >>= λ endpoint.
      or_panic (string_at "api_key" m) >>= λ key.
      or_panic (string_at "device_id" m) >>= λ device_id. ok (record {
        gateway_host = host;
        gateway_port = port;
        api_endpoint = endpoint;
        api_key = key;
        device_id = device_id;
      })
]

-- `DefaultGatewayAgent.Setup`: the address of the gateway, and the agent. `client` makes the client of the API
-- (`none` where there is no error), and `connects` says whether `Reset` gets a connection to the address.
unfoldable pub setup_agent :
    (AgentSetting → Option Fault)
    → (String → Bool)
    → Settings
    → Agent
    → Outcome Fault (String × Agent)
unfolding agent_setting valid_address reset
setup_agent client connects s a = agent_setting s >>= λ setting.
    valid_address setting.gateway_host setting.gateway_port >>= λ address. elim (client setting) [
      | some e ↦ err e
      | none ↦ ok (address, reset (connects address) a)
    ]

pub record GatewayQpu : Type 0 where
  pub agent : Agent
  pub device_setting : DeviceSetting
  pub connected : Bool
  pub current_device_info : DeviceInfo

abbrev pub unavailable_device : DeviceInfo
unavailable_device = record {
  device_name = "";
  provider_name = "";
  type = "";
  status = unavailable;
  max_qubits = pos 0;
  max_shots = pos 0;
  device_info_spec_json = "";
  calibrated_at = "";
}

-- `GatewayQPU.Setup` without the polling, given what the loading of the device's setting and the set-up of the agent give.
unfoldable pub setup : Outcome Fault DeviceSetting → Outcome Fault Agent → Outcome Fault GatewayQpu
setup loaded agent_ready = loaded >>= λ ds.
    if str_eq ds.device_name "wako" || str_eq ds.device_name "handai"
    then (agent_ready >>= λ a. ok (record {
      agent = a;
      device_setting = ds;
      connected = false;
      current_device_info = unavailable_device;
    }))
    else err (unknown_device_name ds.device_name)

-- What a round of the polling meets: the answers of the gateway to its two calls, and whether a connection
-- can be made anew.
pub record Answers : Type 0 where
  pub device : Option DeviceInfo
  pub service : Option ServiceStatus
  pub reconnects : Bool

-- The body of the loop of `startDevicePolling`.
unfoldable pub poll : Services → Answers → GatewayQpu → GatewayQpu
unfolding call_device_info
poll api w q =
    let (info, a) = call_device_info api w.device w.service w.reconnects q.agent in
    elim info [
      | none ↦ record q { agent = a; current_device_info = unavailable_device; connected = false }
      | some di ↦ record q { agent = a; current_device_info = di; connected = true }
    ]

-- The rounds one after the other.
unfoldable pub polls : Services → List Answers → GatewayQpu → GatewayQpu
unfolding poll
polls api [] q = q
polls api (w ∷ ws) q = polls api ws (poll api w q)
