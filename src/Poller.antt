-- ===== src/Poller.antt =====
-- coreapp/poller/poller.go: the periodic task that fetches jobs, and its three states. What a call
-- sees of the outside (the queue, the device, the answer of the cloud) is the record `Tick`; `J` is the
-- type of jobs, and the jobs handed to the scheduler are returned.
pub mod Cadence
pub mod Client
pub mod Params
use oqtopus_engine.Prelude.{
  ℕ, zero, suc, ◌+◌, Bool, true, false, Option, none, some, List, [], ◌∷◌, ◌⊎◌, inl, inr,
  if◌then◌else◌, length, ◌==◌,
}
use oqtopus_engine.Prelude.Int.{ℤ, pos, ltb_ℤ}
use oqtopus_engine.Core.Fault.{Fault, queue_over_threshold, device_not_available}
use oqtopus_engine.Core.Device.{DeviceStatus, is_available}

pub data State : Type 0 where
  polling sub_idle idle : State

pub record Poller : Type 0 where
  pub normal_period : ℤ
  pub idle_period : ℤ
  pub max_retry : ℤ
  pub current_period : ℤ
  pub no_jobs_count : ℕ
  pub state : State

-- The end of `Setup`.
unfoldable pub setup : Poller → Poller
setup p = record p { current_period = p.normal_period; no_jobs_count = 0; state = polling }

pub record Tick (J : Type 0) : Type 0 where
  pub queue_is_over_refill_threshold : Bool
  pub queue_size : ℕ
  pub device_status : DeviceStatus
  -- what `request` returns: an error or the jobs
  pub response : Fault ⊎ List J

module _ {J : Type 0} where
  unfoldable pub pass_polling_condition : Tick J → Option Fault
  pass_polling_condition t =
      if t.queue_is_over_refill_threshold
      then some (queue_over_threshold t.queue_size)
      else if is_available t.device_status
      then none
      else some device_not_available

  -- `getJobs`: the jobs handed to the scheduler, and their number or an error.
  unfoldable pub get_jobs : Tick J → List J × (Fault ⊎ ℕ)
  unfolding pass_polling_condition
  get_jobs t = elim (pass_polling_condition t) [
    | some e ↦ ([], inl e)
    | none ↦ elim t.response [ inl e ↦ ([], inl e) | inr jobs ↦ (jobs, inr (length jobs)) ]
  ]

-- `err != nil || jobsNum == 0`.
abbrev pub got_no_jobs : Fault ⊎ ℕ → Bool
got_no_jobs (inl e) = true
got_no_jobs (inr n) = n == 0

-- The `switch` of `Task` without jobs.
unfoldable pub on_no_jobs : State → Poller → Poller
on_no_jobs polling p = record p { no_jobs_count = 1; state = sub_idle }
on_no_jobs sub_idle p =
    if ltb_ℤ (pos (p.no_jobs_count + 1)) p.max_retry
    then record p { no_jobs_count = p.no_jobs_count + 1 }
    else record p { no_jobs_count = 0; state = idle; current_period = p.idle_period }
on_no_jobs idle p = p

-- The `switch` of `Task` with jobs.
unfoldable pub on_jobs : State → Poller → Poller
on_jobs polling p = p
on_jobs sub_idle p = record p { state = polling; no_jobs_count = 0 }
on_jobs idle p = record p { current_period = p.normal_period; state = polling; no_jobs_count = 0 }

module _ {J : Type 0} where
  -- `Task`: the poller after it, and the jobs handed to the scheduler.
  unfoldable pub task : Tick J → Poller → Poller × List J
  unfolding get_jobs on_no_jobs on_jobs
  task t p =
      let (jobs, n) = get_jobs t in
      (if got_no_jobs n then on_no_jobs p.state p else on_jobs p.state p, jobs)

  -- The calls of `Task` one after the other.
  unfoldable pub run : List (Tick J) → Poller → Poller
  unfolding task
  run [] p = p
  run (t ∷ ts) p = run ts (task t p).0

-- `RequirePeriodUpdate`: the period that the run group sets its ticker to.
unfoldable pub require_period_update : Poller → Bool × ℤ
require_period_update p = (true, p.current_period)
