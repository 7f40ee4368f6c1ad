-- ===== src/Scheduler/Handle/Settled.antt =====
-- Kinds of jobs that post-processing finishes, and how a call of `handleImpl` ends for them.
use oqtopus_engine.Prelude.{
  ℕ, ◌+◌, Bool, true, false, Option, none, some, ◌≡◌, ◌≢◌, refl, sym, subst, if◌then◌else◌,
}
use oqtopus_engine.Core.Status.{running, failed, is_ready}
use oqtopus_engine.Core.Job.{Run, returned, panicked, JobInterface, KeepsFlag}
use oqtopus_engine.Scheduler.Handle.{
  World, Round, stop, wait, again, recover, after_post, after_work, to_queue, after_pre, round,
  work, set_status, set_use_job_info_update, send, record_own, handle_loop, Handled, finished,
  waits, out_of_fuel, handle_impl,
}
use oqtopus_engine.Scheduler.Handle.Report.{latest, Concludes, Reports, round-Reports}

module _ {J : Type 0} (job : JobInterface J) where
  open job use {job_data, is_finished, post_process, process, pre_process}

  -- The job that a worker hands back.
  abbrev pub worked : J → J
  worked j = elim (process j) [ returned j1 ↦ j1 | panicked j1 ↦ set_status job failed j1 ]

  abbrev pub flagged : J → J
  flagged j = set_use_job_info_update job true j

  -- A job that post-processing was needed for is not handed back unfinished by it.
  pub record Settles : Type 0 where
    pub settled :
        (j j1 : J)
        → is_finished (flagged (worked j)) ≡ some false
        → post_process (flagged (worked j)) ≡ returned j1
        → is_finished j1 ≢ some false

  -- The loop does not go on.
  abbrev Ended : Round job → Type 0
  Ended (stop j w) = Unit {0}
  Ended (wait j w) = Unit {0}
  Ended (again j w) = ⊥

  work-worked : (j : J) (w : World) → (work job j w).0 ≡ worked (set_status job running j)
  unfolding work
  work-worked j w = by (process (set_status job running j)) _
    where
      by :
          (r : Run J) (w1 : World)
          → (elim r as (λ _. J × World) [
            | returned j2 ↦ (j2, w1)
            | panicked j2 ↦ let j3 = set_status job failed j2 in (j3, send job j3 w1)
          ]).0
            ≡ elim r [ returned j1 ↦ j1 | panicked j1 ↦ set_status job failed j1 ]
      by (returned j2) w1 = refl
      by (panicked j2) w1 = refl

  after_post-Ended : (j : J) (w : World) → is_finished j ≢ some false → Ended (after_post job j w)
  unfolding after_post recover
  after_post-Ended j w h = by (is_finished j) refl
    where
      by : (o : Option Bool) → is_finished j ≡ o → Ended (after_post job j w)
      by none e = rw (e, after_post) tt
      by (some true) e = rw (e, after_post) tt
      by (some false) e = absurd (h e)

  -- The call returned with the job sent to the database last.
  abbrev pub Settled : Handled job → Type 0
  Settled (finished j w) = (latest w.sent ≡ some (job_data j)) × Concludes job j
  Settled (waits j w) = ⊥
  Settled out_of_fuel = ⊥

  module _ (settles : Settles) where
    after_work-Ended : (j : J) (w : World) → Ended (after_work job (worked j) w)
    unfolding after_work recover
    after_work-Ended j w = by (is_finished j1) refl
      where
        j1 : J
        j1 = flagged (worked j)

        posted :
            (r : Run J)
            → post_process j1 ≡ r
            → is_finished j1 ≡ some false
            → Ended (after_work job (worked j) w)
        posted (returned j2) e f =
            rw (f, after_work)
              (rw (e, after_work) (after_post-Ended j2 w (settles.settled j j2 f e)))
        posted (panicked j2) e f = rw (f, after_work) (rw (e, after_work) tt)

        by : (o : Option Bool) → is_finished j1 ≡ o → Ended (after_work job (worked j) w)
        by none e = rw (e, after_work) tt
        by (some true) e = rw (e, after_work) tt
        by (some false) e = posted (post_process j1) refl e

    to_queue-Ended : (room : Bool) (j : J) (w : World) → Ended (to_queue job room j w)
    unfolding to_queue
    to_queue-Ended true j w =
        subst (λ j1. Ended (after_work job j1 (work job j w).1)) (sym (work-worked j w))
          (after_work-Ended (set_status job running j) (work job j w).1)
    to_queue-Ended false j w = tt

    after_pre-Ended : (room : Bool) (j : J) (w : World) → Ended (after_pre job room j w)
    unfolding after_pre recover
    after_pre-Ended room j w = by (is_finished j) refl
      where
        twice :
            (o : Option Bool)
            → is_finished (flagged j) ≡ o
            → is_finished j ≡ some true
            → Ended (after_pre job room j w)
        twice none e f = rw (f, after_pre) (rw (e, after_pre) tt)
        twice (some true) e f = rw (f, after_pre) (rw (e, after_pre) tt)
        twice (some false) e f =
            rw (f, after_pre)
              (rw (e, after_pre) (to_queue-Ended room (flagged j) (send job (flagged j) w)))

        by : (o : Option Bool) → is_finished j ≡ o → Ended (after_pre job room j w)
        by none e = rw (e, after_pre) tt
        by (some true) e = twice (is_finished (flagged j)) refl e
        by (some false) e = rw (e, after_pre) (to_queue-Ended room j (send job j w))

    round-Ended : (room : Bool) (j : J) (w : World) → Ended (round job room j w)
    unfolding round recover
    round-Ended room j w = by (is_ready (job_data j1).status) (pre_process j1)
      where
        j1 : J
        j1 = set_use_job_info_update job false j

        by :
            (b : Bool) (r : Run J)
            → Ended (
                if b
                then elim r as (λ _. Round job) [
                  | returned j2 ↦ after_pre job room j2 (record_own job j1 w)
                  | panicked j2 ↦ recover job j2 (record_own job j1 w)
                ]
                else stop j1 (record_own job j1 w))
        by false r = tt
        by true (returned j2) = after_pre-Ended room j2 (record_own job j1 w)
        by true (panicked j2) = tt

    -- For a kind of job whose post-processing keeps the flag of the full update and does not hand a job back
    -- unfinished, a call on a READY job that finds a place in the queue always returns, whatever panics on the
    -- way: the last job that was sent to the database is the job as it stands, and it is finished with the full
    -- update asked for, or FAILED.
    pub handle_impl-Settled :
        (keeps : KeepsFlag job) (room : ℕ → Bool) (j : J) (w : World)
        → room 0 ≡ true
        → is_ready (job_data j).status ≡ true
        → Settled (handle_impl job room j w)
    unfolding handle_impl handle_loop
    handle_impl-Settled keeps room j w place h =
        by (round job (room 0) j w) (round-Ended (room 0) j w) (
          subst (λ b. Reports job b (round job (room 0) j w)) place
            (round-Reports job keeps (room 0) j w h))
      where
        by :
            (r : Round job)
            → Ended r
            → Reports job true r
            → Settled (elim r [
              | stop j1 w1 ↦ finished j1 w1
              | wait j1 w1 ↦ waits j1 w1
              | again j1 w1 ↦ handle_loop job 1 room (0 + 1) j1 w1
            ])
        by (stop j1 w1) e k = k
        by (wait j1 w1) e k = cc
        by (again j1 w1) e k = absurd e
