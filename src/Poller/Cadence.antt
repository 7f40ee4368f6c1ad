-- ===== src/Poller/Cadence.antt =====
-- When the poller asks again.
use oqtopus_engine.Prelude.{
  ℕ, suc, ◌+◌, ◌≤◌, ◌<◌, true, false, List, [], ◌∷◌, length, ◌≡◌, ◌≢◌, refl, arith, if◌then◌else◌,
  All, ltb,
}
use oqtopus_engine.Prelude.Int.{ℤ, pos, negsuc}
use oqtopus_engine.Core.Device.{available}
use oqtopus_engine.Poller.{
  polling, sub_idle, idle, Poller, Tick, get_jobs, got_no_jobs, task, run, setup,
}

-- The period is the idle one exactly in the idle state, and the count of empty answers is at least 1
-- in the state between, and 0 in the others.
pub record IsSteady (p : Poller) : Type 0 where
  pub idle_slow : p.state ≡ idle → p.current_period ≡ p.idle_period
  pub busy_fast : p.state ≢ idle → p.current_period ≡ p.normal_period
  pub counting : p.state ≡ sub_idle → 1 ≤ p.no_jobs_count
  pub not_counting : p.state ≢ sub_idle → p.no_jobs_count ≡ 0

setup-IsSteady : (p : Poller) → IsSteady (setup p)
unfolding setup
setup-IsSteady p = ground arith

task-IsSteady : {J : Type 0} (t : Tick J) (p : Poller) → IsSteady p → IsSteady (task t p).0
unfolding task
task-IsSteady t p h = ground arith

run-IsSteady : {J : Type 0} (ts : List (Tick J)) (p : Poller) → IsSteady p → IsSteady (run ts p)
unfolding run
run-IsSteady [] p h = h
run-IsSteady (t ∷ ts) p h = run-IsSteady ts (task t p).0 (task-IsSteady t p h)

-- After its setup and any calls of its task, the poller waits the idle period exactly in the idle
-- state, and counts empty answers, from 1, exactly in the state between polling and idle.
pub run-setup-IsSteady :
    {J : Type 0} (ts : List (Tick J)) (p : Poller) → IsSteady (run ts (setup p))
run-setup-IsSteady ts p = run-IsSteady ts (setup p) (setup-IsSteady p)

-- From a steady state, a call that hands over a job found the queue under its threshold and the device available, and
-- leaves the poller polling at the normal period.
pub task_jobs :
    {J : Type 0} (t : Tick J) (p : Poller)
    → IsSteady p
    → (task t p).1 ≢ []
    → (t.queue_is_over_refill_threshold ≡ false)
      × (t.device_status ≡ available)
      × ((task t p).0.state ≡ polling)
      × ((task t p).0.current_period ≡ p.normal_period)
unfolding task
task_jobs t p h jobs = ground arith

-- A call that gets an error or no job.
abbrev pub IsEmpty : {J : Type 0} → Tick J → Type 0
IsEmpty t = got_no_jobs (get_jobs t).1 ≡ true

-- How many empty answers in a row make the poller idle: MaxRetry, but never fewer than two.
abbrev pub patience : ℤ → ℕ
patience (pos m) = if ltb m 2 then 2 else m
patience (negsuc m) = 2

-- A poller after `n` empty answers in a row that followed an answer with jobs.
abbrev pub After : ℕ → Poller → Type 0
After n p =
    (n ≡ 0 → p.state ≡ polling)
    × (1 ≤ n → n < patience p.max_retry → (p.state ≡ sub_idle) × (p.no_jobs_count ≡ n))
    × (patience p.max_retry ≤ n → (p.state ≡ idle) × (p.current_period ≡ p.idle_period))

module _ {J : Type 0} where
  task-After :
      (t : Tick J) (n : ℕ) (p : Poller) → IsEmpty t → After n p → After (suc n) (task t p).0
  unfolding task
  task-After t n p e h = by p.max_retry refl
    where
      by : (m : ℤ) → p.max_retry ≡ m → After (suc n) (task t p).0
      by (pos m) q = ground arith
      by (negsuc m) q = ground arith

  run-After :
      (ts : List (Tick J)) (n k : ℕ) (p : Poller)
      → All IsEmpty ts
      → After n p
      → k ≡ n + length ts
      → After k (run ts p)
  unfolding run
  run-After [] n k p e h j = let i : n ≡ k = omega arith in rw (← i) h
  run-After (t ∷ ts) n k p e h j =
      run-After ts (suc n) k (task t p).0 e.1 (task-After t n p e.0 h) (omega arith)

  -- From the polling state, in which `setup` leaves it, a poller that only gets errors and empty answers counts
  -- them while there are fewer than MaxRetry, or two if that is larger, and from then on is idle and
  -- waits the idle period.
  pub run-empty :
      (ts : List (Tick J)) (p : Poller)
      → All IsEmpty ts
      → p.state ≡ polling
      → After (length ts) (run ts p)
  run-empty ts p e h =
      run-After ts 0 (length ts) p e
        ((λ z. h), (λ lo lt. absurd (omega arith)), λ le. absurd (few p.max_retry le)) (omega arith)
    where
      few : (m : ℤ) → ¬ (patience m ≤ 0)
      few (pos m) le = ground arith
      few (negsuc m) le = omega arith
