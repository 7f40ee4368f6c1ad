-- ===== src/Qpu/Gateway/Difference.antt =====
-- When a device differs from the one that was sent last.
use oqtopus_engine.Prelude.{
  Bool, true, false, Option, none, some, ◌≡◌, refl, ◌⊎◌, inl, inr, arith, Bool-cases, ap, subst,
}
use oqtopus_engine.Prelude.Int.{ℤ, pos, negsuc}
use oqtopus_engine.Core.Device.{DeviceInfo, DeviceStatus, available, unavailable, queue_paused}
use oqtopus_engine.Qpu.Gateway.{
  same_int, same_status, has_status_changed, has_device_info_changed, has_device_changed,
}
use oqtopus_engine.Qpu.Gateway.Changes.{same_status_refl, same_int_refl}
use text.Mathlib.TextEquality.{eq_iff}

-- The fields that the update of the information looks at.
pub record SameInfo (old new : DeviceInfo) : Type 0 where
  pub calibrated_at : old.calibrated_at ≡ new.calibrated_at
  pub device_info_spec_json : old.device_info_spec_json ≡ new.device_info_spec_json
  pub max_shots : old.max_shots ≡ new.max_shots
  pub provider_name : old.provider_name ≡ new.provider_name
  pub device_name : old.device_name ≡ new.device_name
  pub type : old.type ≡ new.type

abbrev pub SameStatus : DeviceInfo → DeviceInfo → Type 0
SameStatus old new = old.status ≡ new.status

abbrev pub SameQubits : DeviceInfo → DeviceInfo → Type 0
SameQubits old new = old.max_qubits ≡ new.max_qubits

-- Nothing was sent yet, or something else was sent last.
abbrev pub Differs : (DeviceInfo → DeviceInfo → Type 0) → Option DeviceInfo → DeviceInfo → Type 0
Differs Same none new = Unit {0}
Differs Same (some old) new = ¬ Same old new

-- A test decides whether something has changed.
abbrev pub Decides : Bool → Type 0 → Type 0
Decides b D = ((b ≡ true) × D) ⊎ ((b ≡ false) × (¬ D))

same_status-eq : (s t : DeviceStatus) → same_status s t ≡ true → s ≡ t
same_status-eq available available h = refl
same_status-eq unavailable unavailable h = refl
same_status-eq queue_paused queue_paused h = refl
same_status-eq available unavailable h = cc
same_status-eq available queue_paused h = cc
same_status-eq unavailable available h = cc
same_status-eq unavailable queue_paused h = cc
same_status-eq queue_paused available h = cc
same_status-eq queue_paused unavailable h = cc

same_int-eq : (a b : ℤ) → same_int a b ≡ true → a ≡ b
same_int-eq (pos m) (pos n) h = ap pos (ground arith)
same_int-eq (negsuc m) (negsuc n) h = ap negsuc (ground arith)
same_int-eq (pos m) (negsuc n) h = absurd (ground arith)
same_int-eq (negsuc m) (pos n) h = absurd (ground arith)

eq-same_int : (a b : ℤ) → a ≡ b → same_int a b ≡ true
eq-same_int a b h = subst (λ x. same_int a x ≡ true) h (same_int_refl a)

pub status_decided :
    (old : Option DeviceInfo) (new : DeviceInfo)
    → Decides (has_status_changed old (some new)) (Differs SameStatus old new)
unfolding has_status_changed
status_decided none new = inl (refl, tt)
status_decided (some old) new = elim (Bool-cases (same_status old.status new.status)) [
  | inl e ↦ inr (rw e refl, λ d. d (same_status-eq old.status new.status e))
  | inr e ↦ inl (rw e refl, λ h. ground (arith, same_status_refl new.status, h))
]

pub device_decided :
    (old : Option DeviceInfo) (new : DeviceInfo)
    → Decides (has_device_changed old (some new)) (Differs SameQubits old new)
unfolding has_device_changed
device_decided none new = inl (refl, tt)
device_decided (some old) new = elim (Bool-cases (same_int old.max_qubits new.max_qubits)) [
  | inl e ↦ inr (rw e refl, λ d. d (same_int-eq old.max_qubits new.max_qubits e))
  | inr e ↦ inl (rw e refl, λ h. let f = eq-same_int old.max_qubits new.max_qubits h in cc)
]

same_info :
    (old new : DeviceInfo)
    → has_device_info_changed (some old) (some new) ≡ false
    → SameInfo old new
unfolding has_device_info_changed
same_info old new h = record {
  calibrated_at = ground (arith, eq_iff old.calibrated_at new.calibrated_at);
  device_info_spec_json =
      ground (arith, eq_iff old.device_info_spec_json new.device_info_spec_json);
  max_shots = same_int-eq old.max_shots new.max_shots (ground arith);
  provider_name = ground (arith, eq_iff old.provider_name new.provider_name);
  device_name = ground (arith, eq_iff old.device_name new.device_name);
  type = ground (arith, eq_iff old.type new.type);
}

info_unchanged :
    (old new : DeviceInfo)
    → SameInfo old new
    → has_device_info_changed (some old) (some new) ≡ false
unfolding has_device_info_changed
info_unchanged old new s = ground (
  arith,
  eq-same_int old.max_shots new.max_shots s.max_shots,
  eq_iff old.calibrated_at new.calibrated_at,
  eq_iff old.device_info_spec_json new.device_info_spec_json,
  eq_iff old.provider_name new.provider_name,
  eq_iff old.device_name new.device_name,
  eq_iff old.type new.type,
)

pub info_decided :
    (old : Option DeviceInfo) (new : DeviceInfo)
    → Decides (has_device_info_changed old (some new)) (Differs SameInfo old new)
unfolding has_device_info_changed
info_decided none new = inl (refl, tt)
info_decided (some old) new = by (has_device_info_changed (some old) (some new)) refl
  where
    by :
        (b : Bool)
        → has_device_info_changed (some old) (some new) ≡ b
        → Decides (has_device_info_changed (some old) (some new)) (¬ SameInfo old new)
    by true e = inl (e, λ s. let f = info_unchanged old new s in cc)
    by false e = inr (e, λ d. d (same_info old new e))
