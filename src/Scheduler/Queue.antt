-- ===== src/Scheduler/Queue.antt =====
-- coreapp/scheduler/queue.go: `NormalQueue`. The queue below it is the package goconcurrentqueue,
-- behind the interface `fifo`: it is the parameter `Fifo`, whose laws are its documented behaviour.
-- `A` is the job in the scheduler, and `id_of` reads its job's ID.
pub mod Bounds
pub mod Removal
use oqtopus_engine.Prelude.{
  ℕ, zero, suc, ◌+◌, String, Bool, true, Option, none, some, List, [], ◌∷◌, ◌++◌, Outcome, ok, err,
  leb, str_eq, if◌then◌else◌, length, get_elem?, ◌≡◌, ◌≢◌, ◌<◌,
}
use oqtopus_engine.Prelude.Int.{ℤ, pos, leb_ℤ}
use oqtopus_engine.Core.Fault.{Fault, external, no_entry}

-- A list without its element at an index.
abbrev pub remove_at {ℓ} : {A : Type ℓ} → ℕ → List A → List A
remove_at i [] = []
remove_at zero (x ∷ xs) = xs
remove_at (suc i) (x ∷ xs) = x ∷ remove_at i xs

pub record Fifo (A : Type 0) : Type 1 where
  pub Store : Type 0
  pub items : Store → List A
  pub enqueue : A → Store → Option Store
  pub dequeue : Store → Option (A × Store)
  pub get : ℕ → Store → Option A
  pub get_len : Store → ℕ
  pub remove : ℕ → Store → Option Store
  pub enqueue_lem : {a : A} {q r : Store} → enqueue a q ≡ some r → items r ≡ items q ++ a ∷ []
  pub dequeue_some : {a : A} {q r : Store} → dequeue q ≡ some (a, r) → items q ≡ a ∷ items r
  pub dequeue_none : {q : Store} → dequeue q ≡ none → items q ≡ []
  pub get_lem : (i : ℕ) (q : Store) → get i q ≡ get_elem? (items q) i
  pub get_len_lem : (q : Store) → get_len q ≡ length (items q)
  pub remove_lem : {i : ℕ} {q r : Store} → remove i q ≡ some r → items r ≡ remove_at i (items q)
  pub remove_in_range : (i : ℕ) (q : Store) → i < length (items q) → remove i q ≢ none

module _ {A : Type 0} (f : Fifo A) (id_of : A → String) where
  open f use {Store}

  -- `maxSize` and `refillThreshold` are configured integers.
  pub record NormalQueue : Type 0 where
    pub fifo : Store
    pub max_size : ℤ
    pub refill_threshold : ℤ

  -- What the goroutine of `Setup` does with a job that it receives: a full queue drops it, and an
  -- error of the queue below is only logged.
  unfoldable pub receive : A → NormalQueue → NormalQueue
  receive jis n =
      if leb_ℤ n.max_size (pos (f.get_len n.fifo))
      then n
      else elim (f.enqueue jis n.fifo) [ none ↦ n | some q ↦ record n { fifo = q } ]

  -- `Dequeue`: with `wait` it blocks while there is no job; without, that is an error.
  pub data Dequeued : Type 0 where
    job : A → NormalQueue → Dequeued
    waits : Dequeued
    no_job : Dequeued

  unfoldable pub dequeue : Bool → NormalQueue → Dequeued
  dequeue wait n = elim (f.dequeue n.fifo) [
    | some (a, q) ↦ job a (record n { fifo = q })
    | none ↦ if wait then waits else no_job
  ]

  -- The loop of `getIdx` from the index `i`, with the rounds that are left.
  unfoldable pub get_idx_from : ℕ → ℕ → String → Store → Outcome Fault ℕ
  get_idx_from zero i job_id q = err no_entry
  get_idx_from (suc n) i job_id q =
      let rest = get_idx_from n (i + 1) job_id q in
      elim (f.get i q) [ none ↦ rest | some js ↦ if str_eq (id_of js) job_id then ok i else rest ]

  unfoldable pub get_idx : String → NormalQueue → Outcome Fault ℕ
  unfolding get_idx_from
  get_idx job_id n = get_idx_from (f.get_len n.fifo) 0 job_id n.fifo

  unfoldable pub delete : String → NormalQueue → Outcome Fault NormalQueue
  unfolding get_idx
  delete job_id n = elim (get_idx job_id n) [
    | ok idx ↦ elim (f.remove idx n.fifo) [
      | none ↦ err (external "remove")
      | some q ↦ ok (record n { fifo = q })
    ]
    | err e ↦ err e
    | Outcome.panic ↦ Outcome.panic
  ]

  unfoldable pub is_over_refill_threshold : NormalQueue → Bool
  is_over_refill_threshold n = leb_ℤ n.refill_threshold (pos (f.get_len n.fifo))

  unfoldable pub get_current_size : NormalQueue → ℕ
  get_current_size n = f.get_len n.fifo

  -- The two goroutines that use the queue: the one of `Setup` puts jobs in, the worker takes one.
  pub data Event : Type 0 where
    arrive : A → Event
    take_one : Event

  -- The worker that waits for a job and takes it: the queue, and the jobs taken, the latest first.
  unfoldable pub taken : Dequeued → NormalQueue → List A → NormalQueue × List A
  taken (job a m) n out = (m, a ∷ out)
  taken waits n out = (n, out)
  taken no_job n out = (n, out)

  unfoldable pub step : Event → NormalQueue → List A → NormalQueue × List A
  unfolding receive dequeue taken
  step (arrive a) n out = (receive a n, out)
  step take_one n out = taken (dequeue true n) n out

  -- The queue after a sequence of events, and the jobs taken.
  unfoldable pub run : List Event → NormalQueue → List A → NormalQueue × List A
  unfolding step
  run [] n out = (n, out)
  run (e ∷ es) n out = let (n', out') = step e n out in run es n' out'
