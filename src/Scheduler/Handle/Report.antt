-- ===== src/Scheduler/Handle/Report.antt =====
-- What the database is told about a job when a round of `handleImpl` ends.
use oqtopus_engine.Prelude.{
  subst, ◌∙◌, Bool, true, false, Option, none, some, List, [], ◌∷◌, ◌≡◌, ◌⊎◌, inl, inr, refl,
}
use oqtopus_engine.Core.Status.{failed, is_ready}
use oqtopus_engine.Core.Data.{JobData}
use oqtopus_engine.Core.Job.{Run, returned, panicked, left, JobInterface, KeepsFlag}
use oqtopus_engine.Scheduler.Handle.{
  World, Round, stop, wait, again, recover, after_post, after_work, to_queue, after_pre, round,
  work, set_use_job_info_update, send, record_own,
}

abbrev pub latest : List JobData → Option JobData
latest [] = none
latest (d ∷ ds) = some d

module _ {J : Type 0} (job : JobInterface J) where
  open job use {job_data, is_finished, with_job_data, post_process, process, pre_process}

  -- The job is finished and the database is asked for the full update, or the job has failed.
  abbrev pub Concludes : J → Type 0
  Concludes j =
      ((is_finished j ≡ some true) × ((job_data j).use_job_info_update ≡ true))
      ⊎ ((job_data j).status ≡ failed)

  -- What each end of a round means; `room` is the place in the queue.
  abbrev pub Reports : Bool → Round job → Type 0
  Reports room (stop j w) = (latest w.sent ≡ some (job_data j)) × Concludes j
  Reports room (wait j w) = (room ≡ false) × (latest w.sent ≡ some (job_data j))
  Reports room (again j w) = is_finished j ≡ some false

  recover-Reports : (room : Bool) (j : J) (w : World) → Reports room (recover job j w)
  unfolding recover
  recover-Reports room j w =
      let d = record (job_data j) { status = failed } in
      let e = job.job_data-with j d in (rw (job.job_data-clone (with_job_data j d)), inr (rw e))

  module _ (keeps : KeepsFlag job) where
    after_post-Reports :
        (room : Bool) (j : J) (w : World)
        → (job_data j).use_job_info_update ≡ true
        → Reports room (after_post job j w)
    unfolding after_post
    after_post-Reports room j w flag = by (is_finished j) refl
      where
        by : (o : Option Bool) → is_finished j ≡ o → Reports room (after_post job j w)
        by none e = rw (e, after_post) (recover-Reports room j w)
        by (some true) e = rw (e, after_post) (rw (job.job_data-clone j), inl (e, flag))
        by (some false) e = rw (e, after_post) e

    flagged : (j : J) → (job_data (set_use_job_info_update job true j)).use_job_info_update ≡ true
    unfolding set_use_job_info_update
    flagged j = rw (job.job_data-with j _)

    after_work-Reports : (room : Bool) (j : J) (w : World) → Reports room (after_work job j w)
    unfolding after_work
    after_work-Reports room j w = by (is_finished j1) refl
      where
        j1 : J
        j1 = set_use_job_info_update job true j

        posted :
            (r : Run J)
            → post_process j1 ≡ r
            → is_finished j1 ≡ some false
            → Reports room (after_work job j w)
        posted (returned j2) e f =
            let kept : (job_data j2).use_job_info_update ≡ (job_data j1).use_job_info_update =
              subst
                (λ r. (job_data (left r)).use_job_info_update ≡ (job_data j1).use_job_info_update) e
                (keeps.post_flag j1) in
            rw (f, after_work)
              (rw (e, after_work) (after_post-Reports room j2 w (kept ∙ flagged j)))
        posted (panicked j2) e f =
            rw (f, after_work) (rw (e, after_work) (recover-Reports room j2 w))

        by : (o : Option Bool) → is_finished j1 ≡ o → Reports room (after_work job j w)
        by none e = rw (e, after_work) (recover-Reports room j1 w)
        by (some true) e = rw (e, after_work) (rw (job.job_data-clone j1), inl (e, flagged j))
        by (some false) e = posted (post_process j1) refl e

    to_queue-Reports :
        (room : Bool) (j : J) (w : World)
        → latest w.sent ≡ some (job_data j)
        → Reports room (to_queue job room j w)
    unfolding to_queue
    to_queue-Reports true j w h = let (j1, w1) = work job j w in after_work-Reports true j1 w1
    to_queue-Reports false j w h = (refl, h)

    after_pre-Reports : (room : Bool) (j : J) (w : World) → Reports room (after_pre job room j w)
    unfolding after_pre
    after_pre-Reports room j w = by (is_finished j) refl
      where
        j1 : J
        j1 = set_use_job_info_update job true j

        again_by :
            (o : Option Bool)
            → is_finished j1 ≡ o
            → is_finished j ≡ some true
            → Reports room (after_pre job room j w)
        again_by none e f =
            rw (f, after_pre) (rw (e, after_pre) (recover-Reports room j1 (send job j1 w)))
        again_by (some true) e f =
            rw (f, after_pre) (rw (e, after_pre) (rw (job.job_data-clone j1), inl (e, flagged j)))
        again_by (some false) e f =
            rw (f, after_pre)
              (rw (e, after_pre)
                (to_queue-Reports room j1 (send job j1 w) (rw (job.job_data-clone j1))))

        by : (o : Option Bool) → is_finished j ≡ o → Reports room (after_pre job room j w)
        by none e = rw (e, after_pre) (recover-Reports room j w)
        by (some true) e = again_by (is_finished j1) refl e
        by (some false) e =
            rw (e, after_pre) (to_queue-Reports room j (send job j w) (rw (job.job_data-clone j)))

    -- For jobs whose post-processing keeps the flag, a round that handles a READY job ends in one of three ways. If it returns, the last thing sent
    -- to the database is the job as it stands, and the job is finished with the full update asked
    -- for, or it is FAILED. If it waits for ever, the queue had no place, and the last thing sent is
    -- the job as it was pre-processed. If the loop goes on, the job is not finished.
    pub round-Reports :
        (room : Bool) (j : J) (w : World)
        → is_ready (job_data j).status ≡ true
        → Reports room (round job room j w)
    unfolding round
    round-Reports room j w h = by (pre_process j1) refl
      where
        j1 : J
        j1 = set_use_job_info_update job false j

        still : is_ready (job_data j1).status ≡ true
        still = unfold set_use_job_info_update in rw (job.job_data-with j _) h

        by : (r : Run J) → pre_process j1 ≡ r → Reports room (round job room j w)
        by (returned j2) e =
            rw (still, round) (rw (e, round) (after_pre-Reports room j2 (record_own job j1 w)))
        by (panicked j2) e =
            rw (still, round) (rw (e, round) (recover-Reports room j2 (record_own job j1 w)))
