-- ===== src/Scheduler/Handle/History.antt =====
-- The histories of statuses: a call of `HandleJob` leaves none of its own and touches no other.
use oqtopus_engine.Prelude.{
  ℕ, zero, suc, ◌+◌, String, Bool, true, false, Option, none, some, ◌≡◌, ◌≢◌, arith, refl, subst,
  ◌∙◌, eq_iff, str_eq, if◌then◌else◌, zero, suc,
}
use oqtopus_engine.Prelude.Dict.{lookup, erase, string_eq, lookup-insert_ne, lookup-erase}
use oqtopus_engine.Core.Status.{Status, failed, running, is_ready}
use oqtopus_engine.Core.Job.{Run, returned, panicked, left, JobInterface, KeepsId}
use oqtopus_engine.Scheduler.Handle.{
  World, Round, stop, wait, again, recover, after_post, after_work, to_queue, after_pre, round,
  work, set_status, set_use_job_info_update, send, record_own, record_status, handle_loop, Handled,
  out_of_fuel, finished, waits, handle_impl, handle_job,
}

-- The history of every other job is as before.
abbrev pub Others : String → World → World → Type 0
Others i w v = (k : String) → i ≢ k → lookup k v.status_history ≡ lookup k w.status_history

record_status-Others : (i : String) (st : Status) (w : World) → Others i w (record_status i st w)
unfolding record_status
record_status-Others i st w k ne = lookup-insert_ne i k _ w.status_history ne

module _ {J : Type 0} (job : JobInterface J) (keeps : KeepsId job) where
  open job use {job_data, is_finished, with_job_data, post_process, process, pre_process}

  -- The job is still the job `i`, and the other histories are those of `w`.
  abbrev Stays : String → World → J → World → Type 0
  Stays i w j v = ((job_data j).id ≡ i) × Others i w v

  abbrev RoundStays : String → World → Round job → Type 0
  RoundStays i w (stop j v) = Stays i w j v
  RoundStays i w (wait j v) = Stays i w j v
  RoundStays i w (again j v) = Stays i w j v

  module _ (i : String) (w : World) where
    record_at :
        (j : J) (v : World) (k : String) (st : Status)
        → Stays i w j v
        → k ≡ i
        → Stays i w j (record_status k st v)
    record_at j v k st h e = (h.0, λ m ne. rw e (record_status-Others i st v m ne) ∙ h.1 m ne)

    record_own-Stays : (j : J) (v : World) → Stays i w j v → Stays i w j (record_own job j v)
    unfolding record_own
    record_own-Stays j v h = record_at j v (job_data j).id (job_data j).status h h.0

    send-Stays : (j k : J) (v : World) → Stays i w j v → Stays i w j (send job k v)
    unfolding send
    send-Stays j k v h = h

    flag-Stays :
        (b : Bool) (j : J) (v : World)
        → Stays i w j v
        → Stays i w (set_use_job_info_update job b j) v
    unfolding set_use_job_info_update
    flag-Stays b j v h = (rw (job.job_data-with j _) h.0, h.1)

    status-Stays :
        (st : Status) (j : J) (v : World) → Stays i w j v → Stays i w (set_status job st j) v
    unfolding set_status
    status-Stays st j v h = (rw (job.job_data-with j _) h.0, h.1)

    recover-Stays : (j : J) (v : World) → Stays i w j v → RoundStays i w (recover job j v)
    unfolding recover
    recover-Stays j v h =
        let j1 = set_status job failed j in
        send-Stays j1 j1 (record_status (job_data j).id failed v)
          (record_at j1 v (job_data j).id failed (status-Stays failed j v h) h.0)

    after_post-Stays : (j : J) (v : World) → Stays i w j v → RoundStays i w (after_post job j v)
    unfolding after_post
    after_post-Stays j v h = by (is_finished j) refl
      where
        by : (o : Option Bool) → is_finished j ≡ o → RoundStays i w (after_post job j v)
        by none e = rw (e, after_post) (recover-Stays j v h)
        by (some true) e =
            rw (e, after_post) (send-Stays j j (record_own job j v) (record_own-Stays j v h))
        by (some false) e = rw (e, after_post) h

    post-Stays : (j : J) (v : World) → Stays i w j v → Stays i w (left (post_process j)) v
    post-Stays j v h = (keeps.post_id j ∙ h.0, h.1)

    after_work-Stays : (j : J) (v : World) → Stays i w j v → RoundStays i w (after_work job j v)
    unfolding after_work
    after_work-Stays j v h = by (is_finished j1) refl
      where
        j1 : J
        j1 = set_use_job_info_update job true j

        h1 : Stays i w j1 v
        h1 = flag-Stays true j v h

        posted :
            (r : Run J)
            → post_process j1 ≡ r
            → is_finished j1 ≡ some false
            → RoundStays i w (after_work job j v)
        posted (returned j2) e f =
            let k : Stays i w j2 v = subst (λ r. Stays i w (left r) v) e (post-Stays j1 v h1) in
            rw (f, after_work) (rw (e, after_work) (after_post-Stays j2 v k))
        posted (panicked j2) e f =
            let k : Stays i w j2 v = subst (λ r. Stays i w (left r) v) e (post-Stays j1 v h1) in
            rw (f, after_work) (rw (e, after_work) (recover-Stays j2 v k))

        by : (o : Option Bool) → is_finished j1 ≡ o → RoundStays i w (after_work job j v)
        by none e = rw (e, after_work) (recover-Stays j1 v h1)
        by (some true) e =
            rw (e, after_work)
              (send-Stays j1 j1 (record_own job j1 (send job j1 v))
                (record_own-Stays j1 (send job j1 v) (send-Stays j1 j1 v h1)))
        by (some false) e = posted (post_process j1) refl e

    work-Stays : (j : J) (v : World) → Stays i w j v → Stays i w (work job j v).0 (work job j v).1
    unfolding work
    work-Stays j v h = by (process j1) refl
      where
        j1 : J
        j1 = set_status job running j

        v1 : World
        v1 = send job j1 (record_status (job_data j).id running v)

        h1 : Stays i w j1 v1
        h1 =
            send-Stays j1 j1 (record_status (job_data j).id running v)
              (record_at j1 v (job_data j).id running (status-Stays running j v h) h.0)

        h2 : Stays i w (left (process j1)) v1
        h2 = (keeps.process_id j1 ∙ h1.0, h1.1)

        by : (r : Run J) → process j1 ≡ r → Stays i w (work job j v).0 (work job j v).1
        by (returned j2) e = rw (e, work) (subst (λ r. Stays i w (left r) v1) e h2)
        by (panicked j2) e =
            let j3 = set_status job failed j2 in
            let k : Stays i w j2 v1 = subst (λ r. Stays i w (left r) v1) e h2 in
            rw (e, work) (send-Stays j3 j3 v1 (status-Stays failed j2 v1 k))

    to_queue-Stays :
        (room : Bool) (j : J) (v : World) → Stays i w j v → RoundStays i w (to_queue job room j v)
    unfolding to_queue
    to_queue-Stays true j v h =
        let (j1, v1) = work job j v in after_work-Stays j1 v1 (work-Stays j v h)
    to_queue-Stays false j v h = h

    after_pre-Stays :
        (room : Bool) (j : J) (v : World) → Stays i w j v → RoundStays i w (after_pre job room j v)
    unfolding after_pre
    after_pre-Stays room j v h = by (is_finished j) refl
      where
        j1 : J
        j1 = set_use_job_info_update job true j

        h1 : Stays i w j1 (send job j1 v)
        h1 = send-Stays j1 j1 v (flag-Stays true j v h)

        again_by :
            (o : Option Bool)
            → is_finished j1 ≡ o
            → is_finished j ≡ some true
            → RoundStays i w (after_pre job room j v)
        again_by none e f =
            rw (f, after_pre) (rw (e, after_pre) (recover-Stays j1 (send job j1 v) h1))
        again_by (some true) e f =
            rw (f, after_pre) (rw (e, after_pre) (record_own-Stays j1 (send job j1 v) h1))
        again_by (some false) e f =
            rw (f, after_pre) (rw (e, after_pre) (to_queue-Stays room j1 (send job j1 v) h1))

        by : (o : Option Bool) → is_finished j ≡ o → RoundStays i w (after_pre job room j v)
        by none e = rw (e, after_pre) (recover-Stays j v h)
        by (some true) e = again_by (is_finished j1) refl e
        by (some false) e =
            rw (e, after_pre) (to_queue-Stays room j (send job j v) (send-Stays j j v h))

    pre-Stays : (j : J) (v : World) → Stays i w j v → Stays i w (left (pre_process j)) v
    pre-Stays j v h = (keeps.pre_id j ∙ h.0, h.1)

    round-Stays :
        (room : Bool) (j : J) (v : World) → Stays i w j v → RoundStays i w (round job room j v)
    unfolding round
    round-Stays room j v h = by (is_ready (job_data j1).status) refl (pre_process j1) refl
      where
        j1 : J
        j1 = set_use_job_info_update job false j

        v1 : World
        v1 = record_own job j1 v

        h1 : Stays i w j1 v1
        h1 = record_own-Stays j1 v (flag-Stays false j v h)

        by :
            (b : Bool)
            → is_ready (job_data j1).status ≡ b
            → (r : Run J) → pre_process j1 ≡ r
            → RoundStays i w (round job room j v)
        by true e (returned j2) f =
            rw (e, round)
              (rw (f, round)
                (after_pre-Stays room j2 v1
                  (subst (λ r. Stays i w (left r) v1) f (pre-Stays j1 v1 h1))))
        by true e (panicked j2) f =
            rw (e, round)
              (rw (f, round)
                (recover-Stays j2 v1 (subst (λ r. Stays i w (left r) v1) f (pre-Stays j1 v1 h1))))
        by false e r f = rw (e, round) h1

    abbrev HandledStays : Handled job → Type 0
    HandledStays (finished j v) = Stays i w j v
    HandledStays (waits j v) = Stays i w j v
    HandledStays out_of_fuel = Unit {0}

    handle_loop-Stays :
        (n : ℕ) (room : ℕ → Bool) (k : ℕ) (j : J) (v : World)
        → Stays i w j v
        → HandledStays (handle_loop job n room k j v)
    unfolding handle_loop
    handle_loop-Stays zero room k j v h = tt
    handle_loop-Stays (suc n) room k j v h =
        by (round job (room k) j v) refl (handle_loop-Stays n room (k + 1))
      where
        by :
            (r : Round job)
            → round job (room k) j v ≡ r
            → ((j2 : J) (v2 : World)
                → Stays i w j2 v2
                → HandledStays (handle_loop job n room (k + 1) j2 v2))
            → HandledStays (handle_loop job (suc n) room k j v)
        by (stop j2 v2) e ih =
            rw (e, handle_loop) (subst (RoundStays i w) e (round-Stays (room k) j v h))
        by (wait j2 v2) e ih =
            rw (e, handle_loop) (subst (RoundStays i w) e (round-Stays (room k) j v h))
        by (again j2 v2) e ih =
            rw (e, handle_loop) (ih j2 v2 (subst (RoundStays i w) e (round-Stays (room k) j v h)))

  -- For jobs whose methods keep their ID, a call of `HandleJob` that returns leaves no history of its job, and every other job's history as
  -- it was before the call.
  pub handle_job_history :
      (room : ℕ → Bool) (j j' : J) (w w' : World) (k : String)
      → handle_job job room j w ≡ finished j' w'
      → lookup k w'.status_history
        ≡ (if str_eq (job_data j).id k then none else lookup k w.status_history)
  unfolding handle_job handle_impl
  handle_job_history room j j' w w' k e = by (handle_loop job 2 room 0 j w) refl
    where
      i : String
      i = (job_data j).id

      Goal : Type 0
      Goal = lookup k w'.status_history ≡ (if str_eq i k then none else lookup k w.status_history)

      by : (r : Handled job) → handle_loop job 2 room 0 j w ≡ r → Goal
      by (finished j1 w1) f =
          let s : Stays i w j1 w1 =
            subst (HandledStays i w) f (handle_loop-Stays i w 2 room 0 j w (refl, λ m ne. refl)) in
          let q : w'.status_history ≡ erase (job_data j1).id w1.status_history = ground arith in
          ground (arith, s.0, s.1 k, eq_iff i k, lookup-erase i k w1.status_history)
      by (waits j1 w1) f = ground arith
      by out_of_fuel f = ground arith
