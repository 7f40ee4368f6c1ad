-- ===== src/Mitigation/Ends.antt =====
-- How the mitigation of a job's counts ends.
use oqtopus_engine.Prelude.{
  ℕ, String, Bool, true, false, [], Outcome, ok, err, panic, >>=-eq-ok, ◌≡◌, ◌⊎◌, inl, inr, refl,
  subst, All, if◌then◌else◌,
}
use oqtopus_engine.Prelude.Dict.{bytes_eq}
use oqtopus_engine.Core.Fault.{Fault}
use oqtopus_engine.Core.Status.{succeeded, failed}
use oqtopus_engine.Core.Setting.{MitigatorSetting}
use oqtopus_engine.Core.Address.{valid_address}
use oqtopus_engine.Core.Data.{JobData, Counts}
use oqtopus_engine.Core.Job.{Run, returned, panicked}
use oqtopus_engine.Mitigation.{
  Mitigator, mitigator_setting, get_num_of_qubits, request_mitigation, finish_mitigation,
  mark_failed, pseudo_inverse_mitigation, device_topology, lower_counts,
}
use oqtopus_engine.Mitigation.Lower.{
  IsShort, lower_counts-IsShort, HasLength, get_num_of_qubits-HasLength,
}

-- The job is as it was, but for its status and its counts.
abbrev pub IsSame : JobData → JobData → Type 0
IsSame jd d =
    d ≡ record jd { status = d.status; result = record (jd.result) { counts = d.result.counts } }

abbrev pub IsReduced : JobData → JobData → Type 0
IsReduced jd d =
    (n : ℕ) × All (HasLength n) jd.result.counts
    × All (IsShort n) d.result.counts
    × (d.status ≡ succeeded)
    × IsSame jd d

-- The address of the mitigator is valid, and there is no connection to it.
abbrev pub IsUnreachable : Mitigator → Type 0
IsUnreachable m =
    let s = mitigator_setting m.settings in
    (target : String) × (valid_address s.host s.port ≡ ok target) × (m.dial target ≡ false)

abbrev pub IsMitigated : Mitigator → JobData → Run JobData → Type 0
IsMitigated m jd (returned d) =
    IsReduced jd d ⊎ ((d ≡ record jd { status = failed }) ⊎ (IsUnreachable m × (d ≡ jd)))
IsMitigated m jd (panicked d) = d ≡ jd

module _ (m : Mitigator) (jd : JobData) where
  request-IsShort :
      (target : String) (n : ℕ) (c : Counts)
      → request_mitigation m target n jd ≡ ok c
      → All (IsShort n) c
  unfolding request_mitigation
  request-IsShort target n c h =
      let (dt, d, h1) = >>=-eq-ok (device_topology m) _ h in
      let (r, e, h2) = >>=-eq-ok (m.request target _) _ h1 in
      let same : lower_counts n r [] ≡ c = cc in
      subst (All (IsShort n)) same (lower_counts-IsShort n r [] tt)

  finish-IsMitigated :
      (target : String) (n : ℕ)
      → All (HasLength n) jd.result.counts
      → (o : Outcome Fault Counts) → request_mitigation m target n jd ≡ o
      → IsMitigated m jd (finish_mitigation jd o)
  unfolding finish_mitigation mark_failed
  finish-IsMitigated target n a (ok c) e = inl (n, a, request-IsShort target n c e, refl, refl)
  finish-IsMitigated target n a (err f) e = inr (inl refl)
  finish-IsMitigated target n a panic e = refl

  -- The mitigation of a job's counts ends in one of three ways, and changes no more than the status and the
  -- counts. It succeeds, and then all keys of the old counts that are not empty have one length, and no key of
  -- the new ones is longer; or the job is FAILED with its counts as they were; or, at a valid address without a connection,
  -- nothing is changed, its status included. A panic leaves the job as it was.
  pub pseudo_inverse-IsMitigated : IsMitigated m jd (pseudo_inverse_mitigation m jd)
  unfolding pseudo_inverse_mitigation mark_failed
  pseudo_inverse-IsMitigated = by (get_num_of_qubits jd.result.counts) refl
    where
      s : MitigatorSetting
      s = mitigator_setting m.settings

      dialled :
          (target : String) (n : ℕ) (b : Bool)
          → get_num_of_qubits jd.result.counts ≡ ok n
          → valid_address s.host s.port ≡ ok target
          → m.dial target ≡ b
          → IsMitigated m jd
              (if b then finish_mitigation jd (request_mitigation m target n jd) else returned jd)
      dialled target n true h a d =
          finish-IsMitigated target n (get_num_of_qubits-HasLength n _ h) _ refl
      dialled target n false h a d = inr (inr ((target, a, d), refl))

      addressed :
          (n : ℕ) (o : Outcome Fault String)
          → get_num_of_qubits jd.result.counts ≡ ok n
          → valid_address s.host s.port ≡ o
          → IsMitigated m jd (elim o [
            | err e ↦ returned (mark_failed jd)
            | panic ↦ panicked jd
            | ok target ↦
                if m.dial target
                then finish_mitigation jd (request_mitigation m target n jd)
                else returned jd
          ])
      addressed n (err e) h a = inr (inl refl)
      addressed n panic h a = refl
      addressed n (ok target) h a = dialled target n (m.dial target) h a refl

      by :
          (o : Outcome Fault ℕ)
          → get_num_of_qubits jd.result.counts ≡ o
          → IsMitigated m jd (elim o [
            | err e ↦ returned (mark_failed jd)
            | panic ↦ panicked jd
            | ok n ↦ elim (valid_address s.host s.port) [
              | err e ↦ returned (mark_failed jd)
              | panic ↦ panicked jd
              | ok target ↦
                  if m.dial target
                  then finish_mitigation jd (request_mitigation m target n jd)
                  else returned jd
            ]
          ])
      by (err e) h = inr (inl refl)
      by panic h = refl
      by (ok n) h = addressed n (valid_address s.host s.port) h refl
