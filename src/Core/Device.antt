-- ===== src/Core/Device.antt =====
-- coreapp/core/syscomponent.go: what is known of the device.
use oqtopus_engine.Prelude.{ℕ, String, Bool, true, false, List}
use oqtopus_engine.Prelude.Int.{ℤ}

pub data DeviceStatus : Type 0 where
  available unavailable queue_paused : DeviceStatus

pub DeviceStatus-discrete : Discrete DeviceStatus
DeviceStatus-discrete = hlevel

abbrev pub is_available : DeviceStatus → Bool
is_available available = true
is_available _ = false

pub record DeviceInfo : Type 0 where
  pub device_name : String
  pub provider_name : String
  pub type : String
  pub status : DeviceStatus
  pub max_qubits : ℤ
  pub max_shots : ℤ
  pub device_info_spec_json : String
  pub calibrated_at : String

-- `DeviceStatus.String`.
unfoldable pub device_status_string : DeviceStatus → String
device_status_string available = "Available"
device_status_string unavailable = "Unavailable"
device_status_string queue_paused = "QueuePaused"

-- The description of the device that its JSON text holds, a float64 as its bits.
pub record Position : Type 0 where
  pub x : ℕ
  pub y : ℕ

pub record MeasError : Type 0 where
  pub prob_meas1_prep0 : ℕ
  pub prob_meas0_prep1 : ℕ
  pub readout_assignment_error : ℕ

pub record QubitLife : Type 0 where
  pub t1 : ℕ
  pub t2 : ℕ

pub record GateDur : Type 0 where
  pub rz : ℕ
  pub sx : ℕ
  pub x : ℕ

pub record Qubit : Type 0 where
  pub id : ℤ
  pub physical_id : ℤ
  pub position : Position
  pub fidelity : ℕ
  pub meas_error : MeasError
  pub qubit_life : QubitLife
  pub gate_dur : GateDur

pub record DeviceInfoSpec : Type 0 where
  pub device_id : String
  pub qubits : List Qubit
