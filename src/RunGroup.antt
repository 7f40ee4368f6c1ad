-- ===== src/RunGroup.antt =====
-- coreapp/core/run.go: the periodic tasks of the run group, and the runners that a settings file names. The
-- tickers of the package time panic for an interval that is not positive.
pub mod Parse
use oqtopus_engine.Prelude.{
  ℕ, Bool, true, false, ◌&&◌, not, List, [], ◌∷◌, Outcome, ok, panic, ◌>>=◌, ◌==◌, if◌then◌else◌,
}
use oqtopus_engine.Prelude.Int.{ℤ, pos, negsuc, ltb_ℤ}
use oqtopus_engine.Core.Fault.{Fault}

-- `PeriodicTaskImpl`; `E` is what a call of `Task` meets, and `T` what the task keeps.
pub record PeriodicTaskImpl (T E : Type 0) : Type 0 where
  pub task : E → T → T
  pub require_period_update : T → Bool × ℤ

abbrev pub same_period : ℤ → ℤ → Bool
same_period (pos a) (pos b) = a == b
same_period (negsuc a) (negsuc b) = a == b
same_period _ _ = false

-- `time.NewTicker` and `Ticker.Reset`.
unfoldable pub set_ticker : ℤ → Outcome Fault ℤ
set_ticker d = if ltb_ℤ (pos 0) d then ok d else panic

-- A task that runs: its own state, `lastPeriod`, and the interval of the ticker.
pub record Running (T : Type 0) : Type 0 where
  pub state : T
  pub last_period : ℤ
  pub ticker : ℤ

module _ {T E : Type 0} (impl : PeriodicTaskImpl T E) where
  open impl use {task, require_period_update}

  -- The function of `AddPeriodicTask` up to its loop.
  unfoldable pub start : ℤ → E → T → Outcome Fault (Running T)
  unfolding set_ticker
  start period e t =
      set_ticker period >>= λ d. ok (record { state = task e t; last_period = period; ticker = d })

  -- The body of the loop at a tick.
  unfoldable pub tick : E → Running T → Outcome Fault (Running T)
  unfolding set_ticker
  tick e r =
      let t = task e r.state in
      let (update, new_period) = require_period_update t in
      if update && not (same_period new_period r.last_period)
      then (set_ticker new_period >>= λ d.
          ok (record { state = t; last_period = new_period; ticker = d }))
      else ok (record r { state = t })

  -- The ticks until the context is done.
  unfoldable pub ticks : List E → Running T → Outcome Fault (Running T)
  unfolding tick
  ticks [] r = ok r
  ticks (e ∷ es) r = tick e r >>= ticks es

  unfoldable pub add_periodic_task : ℤ → E → List E → T → Outcome Fault (Running T)
  unfolding start ticks
  add_periodic_task period e es t = start period e t >>= ticks es
