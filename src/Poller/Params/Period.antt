-- ===== src/Poller/Params/Period.antt =====
-- The poller as a periodic task of the run group.
use oqtopus_engine.Prelude.{
  Bool, true, false, List, [], ◌∷◌, ok, ◌≡◌, refl, arith, ◌∙◌, sym, ap, subst,
}
use oqtopus_engine.Prelude.Int.{ℤ, pos, negsuc, ltb_ℤ}
use oqtopus_engine.Poller.{Poller, Tick, task, setup, require_period_update}
use oqtopus_engine.RunGroup.{
  PeriodicTaskImpl, Running, set_ticker, start, tick, ticks, add_periodic_task, same_period,
}

abbrev pub poller_task : {J : Type 0} → PeriodicTaskImpl Poller (Tick J)
poller_task = record { task = λ t p. (task t p).0; require_period_update = require_period_update }

abbrev pub IsPositive : ℤ → Type 0
IsPositive d = ltb_ℤ (pos 0) d ≡ true

-- Both periods of the poller are positive.
pub record IsTimed (p : Poller) : Type 0 where
  pub normal_positive : IsPositive p.normal_period
  pub idle_positive : IsPositive p.idle_period
  pub current_positive : IsPositive p.current_period

-- The ticker has the last period, and it is the poller's current one.
pub record IsInStep (r : Running Poller) : Type 0 where
  pub last : r.ticker ≡ r.last_period
  pub current : r.last_period ≡ r.state.current_period

same_period→eq : (a b : ℤ) → same_period a b ≡ true → a ≡ b
same_period→eq (pos a) (pos b) h = ap pos (ground arith)
same_period→eq (negsuc a) (negsuc b) h = ap negsuc (ground arith)
same_period→eq (pos a) (negsuc b) h = cc
same_period→eq (negsuc a) (pos b) h = cc

set_ticker_positive : (d : ℤ) → IsPositive d → set_ticker d ≡ ok d
unfolding set_ticker
set_ticker_positive d h = rw h

-- What the body of the loop gives.
abbrev Ticked : Running Poller → Type 0
Ticked r = IsTimed r.state × IsInStep r

setup-IsTimed :
    (p : Poller) → IsPositive p.normal_period → IsPositive p.idle_period → IsTimed (setup p)
unfolding setup
setup-IsTimed p n i = record { normal_positive = n; idle_positive = i; current_positive = n }

module _ {J : Type 0} where
  task-IsTimed : (t : Tick J) (p : Poller) → IsTimed p → IsTimed (task t p).0
  unfolding task
  task-IsTimed t p h = ground arith

  tick-Ticked :
      (t : Tick J) (r : Running Poller)
      → IsTimed r.state
      → r.ticker ≡ r.last_period
      → (r1 : Running Poller) × (tick poller_task t r ≡ ok r1) × Ticked r1
  unfolding tick require_period_update
  tick-Ticked t r h e = by (same_period p.current_period r.last_period) refl
    where
      p : Poller
      p = (task t r.state).0

      timed : IsTimed p
      timed = task-IsTimed t r.state h

      by :
          (b : Bool)
          → same_period p.current_period r.last_period ≡ b
          → (r1 : Running Poller) × (tick poller_task t r ≡ ok r1) × Ticked r1
      by true s = (
        record r { state = p },
        rw (s, tick) refl,
        (timed, record { last = e; current = sym (same_period→eq _ _ s) }),
      )
      by false s = (
        record { state = p; last_period = p.current_period; ticker = p.current_period },
        rw (s, tick) (rw (set_ticker_positive p.current_period timed.current_positive) refl),
        (timed, record { last = refl; current = refl }),
      )

  ticks-Ticked :
      (ts : List (Tick J)) (r : Running Poller)
      → Ticked r
      → (r1 : Running Poller) × (ticks poller_task ts r ≡ ok r1) × Ticked r1
  unfolding ticks
  ticks-Ticked [] r h = (r, refl, h)
  ticks-Ticked (t ∷ ts) r (h, s) =
      let (r1, e, k) = tick-Ticked t r h s.last in
      let (r2, f, k2) = ticks-Ticked ts r1 k in (r2, rw e f, k2)

  -- A poller that was set up with positive periods, as a periodic task with a positive period, never panics the run group, and after one
  -- tick or more its ticker has the current period of the poller, which is positive.
  pub add_periodic_task-IsInStep :
      (period : ℤ) (p : Poller) (first second : Tick J) (ts : List (Tick J))
      → IsPositive period
      → IsPositive p.normal_period
      → IsPositive p.idle_period
      → (r : Running Poller) × (add_periodic_task poller_task period first (second ∷ ts) (setup p)
          ≡ ok r)
        × IsInStep r
        × IsPositive r.ticker
  unfolding add_periodic_task start ticks
  add_periodic_task-IsInStep period p first second ts h n i =
      let timed = task-IsTimed first (setup p) (setup-IsTimed p n i) in
      let (r1, e, k) =
        tick-Ticked second
          (record { state = (task first (setup p)).0; last_period = period; ticker = period }) timed
          refl in
      let (r2, f, k2) = ticks-Ticked ts r1 k in
      (
        r2,
        rw (set_ticker_positive period h) (rw e f),
        k2.1,
        subst IsPositive (sym (k2.1.last ∙ k2.1.current)) k2.0.current_positive,
      )
