-- ===== src/Qpu/Gateway/Changes.antt =====
-- When the agent falls silent: a device that counts as sent is not told again.
use oqtopus_engine.Prelude.{
  Bool, true, false, Option, none, some, ◌≡◌, refl, arith, Bool-cases, if◌then◌else◌,
}
use oqtopus_engine.Prelude.Int.{ℤ, leb_ℤ}
use oqtopus_engine.Core.Device.{DeviceInfo, DeviceStatus, available, unavailable, queue_paused}
use oqtopus_engine.Qpu.Gateway.{
  Agent, Services, same_int, same_status, has_status_changed, has_device_info_changed,
  has_device_changed, call_device_api_on_change, attempt, update_device, update_device_info,
  update_device_status, patch, patch_device_status, to_device_device_status_update_status,
}
use text.Mathlib.TextEquality.{eq_iff}

pub same_status_refl : (s : DeviceStatus) → same_status s s ≡ true
same_status_refl available = refl
same_status_refl unavailable = refl
same_status_refl queue_paused = refl

leb_ℤ_refl : (a : ℤ) → leb_ℤ a a ≡ true
leb_ℤ_refl a = ground arith

pub same_int_refl : (a : ℤ) → same_int a a ≡ true
same_int_refl a = ground (arith, leb_ℤ_refl a)

-- Nothing has changed between a device and itself.
status_unchanged : (d : DeviceInfo) → has_status_changed (some d) (some d) ≡ false
unfolding has_status_changed
status_unchanged d = rw (same_status_refl d.status) refl

info_unchanged : (d : DeviceInfo) → has_device_info_changed (some d) (some d) ≡ false
unfolding has_device_info_changed
info_unchanged d = ground (
  arith,
  same_int_refl d.max_shots,
  eq_iff d.calibrated_at d.calibrated_at,
  eq_iff d.device_info_spec_json d.device_info_spec_json,
  eq_iff d.provider_name d.provider_name,
  eq_iff d.device_name d.device_name,
  eq_iff d.type d.type,
)

device_unchanged : (d : DeviceInfo) → has_device_changed (some d) (some d) ≡ false
unfolding has_device_changed
device_unchanged d = rw (same_int_refl d.max_qubits) refl

-- Telling again what was told last does nothing.
settled :
    (api : Services) (d : DeviceInfo) (a : Agent)
    → a.last_device_info ≡ some d
    → call_device_api_on_change api d a ≡ a
unfolding call_device_api_on_change
settled api d a h = rw (h, device_unchanged d, info_unchanged d, status_unchanged d) refl

stays_updated :
    (changed : Bool) (f : Agent → Bool × Agent) (b : Agent) → (attempt changed f (true, b)).0 ≡ true
stays_updated false f b = refl
stays_updated true f b = ground (arith, Bool-cases (f b).0)

attempt_accepted :
    (changed : Bool) (f : Agent → Bool × Agent) (b : Agent)
    → changed ≡ true
    → (f b).0 ≡ true
    → (attempt changed f (false, b)).0 ≡ true
attempt_accepted true f b c h = rw h refl
attempt_accepted false f b c h = absurd (ground arith)

-- Later attempts leave the mark that an earlier one set.
attempt_marked :
    (changed : Bool) (f : Agent → Bool × Agent) (p : Bool × Agent)
    → p.0 ≡ true
    → (attempt changed f p).0 ≡ true
attempt_marked changed f (true, b) h = stays_updated changed f b
attempt_marked changed f (false, b) h = absurd (ground arith)

last_when_updated :
    (u : Bool) (new : DeviceInfo) (b : Agent)
    → u ≡ true
    → (if u then record b { last_device_info = some new } else b).last_device_info ≡ some new
last_when_updated true new b h = refl
last_when_updated false new b h = absurd (ground arith)

changed_at_first :
    (old : Option DeviceInfo) (new : DeviceInfo)
    → old ≡ none
    → has_status_changed old (some new) ≡ true
unfolding has_status_changed
changed_at_first none new h = refl
changed_at_first (some old) new h = absurd (ground arith)

updates_last :
    (api : Services) (new : DeviceInfo) (a : Agent)
    → a.last_device_info ≡ none
    → api.accepts (patch_device_status (to_device_device_status_update_status new.status)) ≡ true
    → (call_device_api_on_change api new a).last_device_info ≡ some new
unfolding call_device_api_on_change update_device_status patch
updates_last api new a fresh accepted =
    let old = a.last_device_info in
    let first =
      attempt (has_status_changed old (some new)) (update_device_status api new.status)
        (false, a) in
    let second =
      attempt (has_device_info_changed old (some new)) (update_device_info api new) first in
    let third = attempt (has_device_changed old (some new)) (update_device api new) second in
    last_when_updated third.0 new third.1 (
      attempt_marked _ (update_device api new) second (
        attempt_marked _ (update_device_info api new) first (
          attempt_accepted _ (update_device_status api new.status) a
            (changed_at_first old new fresh) accepted)))

-- After the first call for a fresh agent in which the status update is accepted, a second call with the
-- same information makes no request, whatever became of the other two: a refused update of the device's
-- information, or one whose time does not parse, is not tried again.
pub refused_update_forgotten :
    (api later : Services) (new : DeviceInfo) (a : Agent)
    → a.last_device_info ≡ none
    → api.accepts (patch_device_status (to_device_device_status_update_status new.status)) ≡ true
    → call_device_api_on_change later new (call_device_api_on_change api new a)
      ≡ call_device_api_on_change api new a
refused_update_forgotten api later new a fresh accepted =
    settled later new _ (updates_last api new a fresh accepted)
