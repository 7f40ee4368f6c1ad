-- ===== src/Scheduler/Handle/Rounds.antt =====
-- The loop of `handleImpl` ends after two rounds.
use oqtopus_engine.Prelude.{ℕ, suc, ◌+◌, Bool, true, false, ◌≡◌, ◌≢◌, arith, refl, subst}
use oqtopus_engine.Core.Status.{running, ready}
use oqtopus_engine.Core.Job.{Run, returned, panicked, left, JobInterface, NeverReady}
use oqtopus_engine.Prelude.Dict.{erase, string_eq}
use oqtopus_engine.Scheduler.Handle.{
  World, Round, stop, wait, again, recover, after_post, after_work, to_queue, after_pre, round,
  work, set_status, set_use_job_info_update, send, record_own, record_status, handle_loop,
  handle_impl, handle_job, finished, out_of_fuel,
}

module _ {J : Type 0} (job : JobInterface J) where
  open job use {job_data, is_finished, with_job_data, post_process, process, pre_process}

  abbrev pub NotReady : J → Type 0
  NotReady j = (job_data j).status ≢ ready

  -- If the loop goes on, the job is no longer READY.
  abbrev pub Leaves : Round job → Type 0
  Leaves (stop j w) = Unit {0}
  Leaves (wait j w) = Unit {0}
  Leaves (again j w) = NotReady j

  set_flag-NotReady : (b : Bool) (j : J) → NotReady j → NotReady (set_use_job_info_update job b j)
  unfolding set_use_job_info_update
  set_flag-NotReady b j h = rw (job.job_data-with j _) h

  -- A job that is not READY is not handled: the round records its status and stops, and nothing is
  -- sent to the database.
  pub round-NotReady :
      (room : Bool) (j : J) (w : World)
      → NotReady j
      → round job room j w
        ≡ stop
            (set_use_job_info_update job false j)
            (record_own job (set_use_job_info_update job false j) w)
  unfolding round
  round-NotReady room j w h = ground (arith, set_flag-NotReady false j h)

  -- A call of `HandleJob` on a job that is not READY returns at once and sends nothing to the database, a job
  -- that failed its validation included.
  pub handle_job_unready :
      (room : ℕ → Bool) (j : J) (w : World)
      → NotReady j
      → (j' : J) × (w' : World) × (handle_job job room j w ≡ finished j' w') × (w'.sent ≡ w.sent)
  unfolding handle_job handle_impl handle_loop record_own record_status
  handle_job_unready room j w h =
      let j1 = set_use_job_info_update job false j in
      let w1 = record_own job j1 w in
      (
        j1,
        record w1 { status_history = erase (job_data j1).id w1.status_history },
        rw (handle_job, handle_impl, handle_loop, round-NotReady (room 0) j w h) refl,
        refl,
      )

  module _ (never : NeverReady job) where
    after_post-Leaves : (j : J) (w : World) → NotReady j → Leaves (after_post job j w)
    unfolding after_post recover
    after_post-Leaves j w h = ground arith

    after_work-Leaves : (j : J) (w : World) → NotReady j → Leaves (after_work job j w)
    unfolding after_work recover
    after_work-Leaves j w h = by (post_process j1) refl
      where
        j1 : J
        j1 = set_use_job_info_update job true j

        kept : NotReady (left (post_process j1))
        kept = never.post_ready j1 (set_flag-NotReady true j h)

        by : (r : Run J) → post_process j1 ≡ r → Leaves (after_work job j w)
        by (returned j2) e =
            let k : NotReady j2 = subst (λ r. NotReady (left r)) e kept in
            ground (arith, after_post-Leaves j2 w k)
        by (panicked j2) e = ground arith

    work-NotReady : (j : J) (w : World) → NotReady (work job j w).0
    unfolding work set_status
    work-NotReady j w = by (process j1) refl
      where
        j1 : J
        j1 = with_job_data j (record (job_data j) { status = running })

        start : NotReady j1
        start = rw (job.job_data-with j _) (λ e. cc)

        by : (r : Run J) → process j1 ≡ r → NotReady (work job j w).0
        by (returned j2) e =
            rw (e, work) (subst (λ r. NotReady (left r)) e (never.process_ready j1 start))
        by (panicked j2) e = rw (e, work) (rw (job.job_data-with j2 _) (λ q. cc))

    to_queue-Leaves : (room : Bool) (j : J) (w : World) → Leaves (to_queue job room j w)
    unfolding to_queue
    to_queue-Leaves true j w =
        let (j1, w1) = work job j w in after_work-Leaves j1 w1 (work-NotReady j w)
    to_queue-Leaves false j w = tt

    after_pre-Leaves : (room : Bool) (j : J) (w : World) → Leaves (after_pre job room j w)
    unfolding after_pre recover
    after_pre-Leaves room j w =
        let j1 = set_use_job_info_update job true j in
        ground
          (arith, to_queue-Leaves room j1 (send job j1 w), to_queue-Leaves room j (send job j w))

    pub round-Leaves : (room : Bool) (j : J) (w : World) → Leaves (round job room j w)
    unfolding round recover
    round-Leaves room j w = by (pre_process j1) refl
      where
        j1 : J
        j1 = set_use_job_info_update job false j

        by : (r : Run J) → pre_process j1 ≡ r → Leaves (round job room j w)
        by (returned j2) e = ground (arith, after_pre-Leaves room j2 (record_own job j1 w))
        by (panicked j2) e = ground arith

    -- For jobs that processing and post-processing never put back to READY, fuel for two rounds is enough:
    -- the loop never runs out of it, and more changes nothing.
    pub handle_loop_fuel :
        (n : ℕ) (room : ℕ → Bool) (i : ℕ) (j : J) (w : World)
        → (handle_loop job (suc (suc n)) room i j w ≢ out_of_fuel)
          × (handle_loop job (suc (suc n)) room i j w ≡ handle_loop job 2 room i j w)
    unfolding handle_loop
    handle_loop_fuel n room i j w = by (round job (room i) j w) refl
      where
        Good : Type 0
        Good =
            (handle_loop job (suc (suc n)) room i j w ≢ out_of_fuel)
            × (handle_loop job (suc (suc n)) room i j w ≡ handle_loop job 2 room i j w)

        by : (r : Round job) → round job (room i) j w ≡ r → Good
        by (stop j1 w1) e = rw (e, handle_loop) ((λ q. cc), refl)
        by (wait j1 w1) e = rw (e, handle_loop) ((λ q. cc), refl)
        by (again j1 w1) e =
            let left_ready : NotReady j1 = subst Leaves e (round-Leaves (room i) j w) in
            rw (e, handle_loop)
              (rw (round-NotReady (room (i + 1)) j1 w1 left_ready, handle_loop) ((λ q. cc), refl))
