-- ===== src/Qpu/Gateway.antt =====
-- coreapp/qpu/gateway.go: the agent of the device gateway. The gateway and the provider's API are
-- services: what they answer is a parameter. The agent's state is the device information that it sent
-- last, and, for what is proved, the requests that it made.
pub mod Changes
pub mod Difference
pub mod Informed
pub mod Send
pub mod Polling
use oqtopus_engine.Prelude.{
  ℕ, String, Bool, true, false, ◌||◌, not, Option, none, some, List, [], ◌∷◌, ◌++◌, Outcome, ok,
  err, panic, str_eq, if◌then◌else◌, ◌≡◌,
}
use oqtopus_engine.Prelude.Int.{ℤ, pos, leb_ℤ}
use oqtopus_engine.Core.Device.{DeviceInfo, DeviceStatus, available, unavailable, queue_paused}

-- A status of the provider's API, `DevicesDeviceStatusUpdateStatus`.
pub data ApiStatus : Type 0 where
  api_available api_unavailable : ApiStatus

-- The requests of the agent: PatchDeviceStatus, PatchDeviceInfo and PatchDevice.
pub data Request : Type 0 where
  patch_device_status : ApiStatus → Request
  patch_device_info : String → ℕ → Request
  patch_device : ℤ → Request

pub record Agent : Type 0 where
  pub last_device_info : Option DeviceInfo
  pub requests : List Request

-- The numbers of the enumeration that the gateway's interface generates.
pub data ServiceStatus : Type 0 where
  service_active service_inactive service_maintenance : ServiceStatus
  service_unknown : ℕ → ServiceStatus

unfoldable pub map_service_status_to_device_status : ServiceStatus → DeviceStatus
map_service_status_to_device_status service_active = available
map_service_status_to_device_status service_inactive = unavailable
map_service_status_to_device_status service_maintenance = queue_paused
map_service_status_to_device_status (service_unknown n) = unavailable

unfoldable pub to_device_device_status_update_status : DeviceStatus → ApiStatus
to_device_device_status_update_status available = api_available
to_device_device_status_update_status unavailable = api_unavailable
to_device_device_status_update_status queue_paused = api_unavailable

abbrev pub same_status : DeviceStatus → DeviceStatus → Bool
same_status available available = true
same_status unavailable unavailable = true
same_status queue_paused queue_paused = true
same_status _ _ = false

abbrev pub same_int : ℤ → ℤ → Bool
same_int a b = if leb_ℤ a b then leb_ℤ b a else false

unfoldable pub has_status_changed : Option DeviceInfo → Option DeviceInfo → Bool
has_status_changed none new = true
has_status_changed (some old) none = true
has_status_changed (some old) (some new) = not (same_status old.status new.status)

unfoldable pub has_device_info_changed : Option DeviceInfo → Option DeviceInfo → Bool
has_device_info_changed none new = true
has_device_info_changed (some old) none = true
has_device_info_changed (some old) (some new) =
    not (str_eq old.calibrated_at new.calibrated_at)
    || not (str_eq old.device_info_spec_json new.device_info_spec_json)
    || not (same_int old.max_shots new.max_shots)
    || not (str_eq old.provider_name new.provider_name)
    || not (str_eq old.device_name new.device_name)
    || not (str_eq old.type new.type)

unfoldable pub has_device_changed : Option DeviceInfo → Option DeviceInfo → Bool
has_device_changed none new = true
has_device_changed (some old) none = true
has_device_changed (some old) (some new) = not (same_int old.max_qubits new.max_qubits)

-- What the services do: `time.Parse` with RFC 3339, and whether the API takes a request without an error.
pub record Services : Type 0 where
  pub parse_time : String → Option ℕ
  pub accepts : Request → Bool

-- One call of the API: whether it succeeded, and the agent with the request in its log.
unfoldable pub patch : Services → Request → Agent → Bool × Agent
patch api r a = (api.accepts r, record a { requests = a.requests ++ r ∷ [] })

unfoldable pub update_device_status : Services → DeviceStatus → Agent → Bool × Agent
unfolding patch to_device_device_status_update_status
update_device_status api st a =
    patch api (patch_device_status (to_device_device_status_update_status st)) a

unfoldable pub update_device_info : Services → DeviceInfo → Agent → Bool × Agent
unfolding patch
update_device_info api di a = elim (api.parse_time di.calibrated_at) [
  | none ↦ (false, a)
  | some t ↦ patch api (patch_device_info di.device_info_spec_json t) a
]

unfoldable pub update_device : Services → DeviceInfo → Agent → Bool × Agent
unfolding patch
update_device api di a = patch api (patch_device di.max_qubits) a

-- `if changed { if err := update(); err == nil { updated = true } }`.
abbrev pub attempt : Bool → (Agent → Bool × Agent) → Bool × Agent → Bool × Agent
attempt false update (updated, a) = (updated, a)
attempt true update (updated, a) = ((if (update a).0 then true else updated), (update a).1)

unfoldable pub call_device_api_on_change : Services → DeviceInfo → Agent → Agent
unfolding update_device_status update_device_info update_device has_status_changed
    has_device_info_changed has_device_changed
call_device_api_on_change api new a =
    let old = a.last_device_info in
    let (updated, b) = attempt (has_device_changed old (some new)) (update_device api new) (
      attempt (has_device_info_changed old (some new)) (update_device_info api new) (
        attempt (has_status_changed old (some new)) (update_device_status api new.status)
          (false, a))) in
    if updated then record b { last_device_info = some new } else b

-- `Reset`: a connection that can be made forgets what was sent.
unfoldable pub reset : Bool → Agent → Agent
reset connected a = if connected then record a { last_device_info = none } else a

-- `CallDeviceInfo`, with what the two calls of the gateway answer (`none` for an error) and whether the
-- connection can be made anew.
unfoldable pub call_device_info :
    Services → Option DeviceInfo → Option ServiceStatus → Bool → Agent → Option DeviceInfo × Agent
unfolding call_device_api_on_change map_service_status_to_device_status reset
call_device_info api none ss connected a = (none, reset connected a)
call_device_info api (some di) none connected a = (none, reset connected a)
call_device_info api (some di) (some ss) connected a =
    let cd = record di { status = map_service_status_to_device_status ss } in
    (some cd, call_device_api_on_change api cd a)
