-- ===== src/Jobs/Estimation/Scheduled.antt =====
-- An estimation job in the scheduler.
use oqtopus_engine.Prelude.{
  ℕ, Bool, true, false, some, ◌∷◌, Outcome, ok, err, panic, ◌≡◌, ◌≢◌, refl, subst, ap, ◌∙◌, length,
}
use oqtopus_engine.Core.Fault.{Fault}
use oqtopus_engine.Core.Status.{running, failed, is_ready}
use oqtopus_engine.Core.Data.{Estimation, set_failure, clone_data}
use oqtopus_engine.Core.Job.{returned, panicked, left, KeepsFlag}
use oqtopus_engine.Jobs.Estimation.State.{EstimationJob, Services}
use oqtopus_engine.Jobs.Estimation.{
  process, post_process, take_estimation, is_finished, clone, estimation_job,
}
use oqtopus_engine.Jobs.Estimation.Counted.{
  IsCounted, process-IsCounted, EndsEstimated, post_process-EndsEstimated,
}
use oqtopus_engine.Scheduler.Handle.{
  World, stop, to_queue, work, after_work, after_post, record_own, record_status, send, handle_impl,
  set_use_job_info_update, set_status,
}
use oqtopus_engine.Scheduler.Handle.Settled.{Settles, Settled, flagged, handle_impl-Settled}

abbrev flag_of : EstimationJob → Bool
flag_of j = j.job_data.use_job_info_update

take_estimation_flag :
    (s : Services) (j : EstimationJob) (o : Outcome Fault Estimation)
    → flag_of (left (take_estimation s j o)) ≡ flag_of j
unfolding take_estimation set_failure
take_estimation_flag s j (ok e) = refl
take_estimation_flag s j (err e) = refl
take_estimation_flag s j panic = refl

module _ (s : Services) where
  post_process_flag : (j : EstimationJob) → flag_of (left (post_process s j)) ≡ flag_of j
  unfolding post_process
  post_process_flag j = take_estimation_flag s (record j { finished = true }) _

  pub estimation_job-KeepsFlag : KeepsFlag (estimation_job s)
  estimation_job-KeepsFlag = record { post_flag = post_process_flag }

  settled : (k j1 : EstimationJob) → post_process s k ≡ returned j1 → is_finished j1 ≢ some false
  unfolding is_finished
  settled k j1 e g = let c = (subst (EndsEstimated s k) e (post_process-EndsEstimated s k)).0 in cc

  pub estimation_job-Settles : Settles (estimation_job s)
  estimation_job-Settles = record { settled = λ j j1 f e. settled _ j1 e }

  -- A READY estimation job that finds a place in the queue is always handled to the end, whatever the
  -- transpiler, the device, the mitigator and the estimator do, panics included: the last job that is sent
  -- to the database is the job as it stands, and it is finished with the full update asked for, or FAILED.
  pub estimation_job-Settled :
      (room : ℕ → Bool) (j : EstimationJob) (w : World)
      → room 0 ≡ true
      → is_ready j.job_data.status ≡ true
      → Settled (estimation_job s) (handle_impl (estimation_job s) room j w)
  estimation_job-Settled room j w r h =
      handle_impl-Settled (estimation_job s) estimation_job-Settles estimation_job-KeepsFlag room j
        w r h

  -- The job as the worker hands it to post-processing after a panic.
  abbrev pub after_panic : EstimationJob → EstimationJob
  after_panic j = flagged (estimation_job s) (set_status (estimation_job s) failed j)

  -- What the worker leaves where processing panics.
  abbrev failed_world : EstimationJob → EstimationJob → World → World
  failed_world j j1 w = send (estimation_job s) (set_status (estimation_job s) failed j1) (
      send (estimation_job s) (set_status (estimation_job s) running j)
        (record_status j.job_data.id running w))

  panicked_work :
      (j j1 : EstimationJob) (w : World)
      → process s (set_status (estimation_job s) running j) ≡ panicked j1
      → work (estimation_job s) j w ≡ (set_status (estimation_job s) failed j1, failed_world j j1 w)
  unfolding work
  panicked_work j j1 w p = rw (p, work) refl

  -- The round goes on with post-processing, and ends with it.
  post_processed :
      (k j2 : EstimationJob) (w : World)
      → is_finished (flagged (estimation_job s) k) ≡ some false
      → post_process s (flagged (estimation_job s) k) ≡ returned j2
      → is_finished j2 ≡ some true
      → after_work (estimation_job s) k w
        ≡ stop j2 (send (estimation_job s) j2 (record_own (estimation_job s) j2 w))
  unfolding after_work after_post
  post_processed k j2 w f q g = rw (f, after_work) (rw (q, after_work) (rw (g, after_post) refl))

  -- If processing an estimation job that is not finished panics, the database is told that it is FAILED, and yet
  -- the job is post-processed: where that returns, the job as it then stands is sent after the failure, and the call
  -- ends with it.
  pub process_panic_is_post_processed :
      (j j1 j2 : EstimationJob) (w : World)
      → j.finished ≡ false
      → process s (set_status (estimation_job s) running j) ≡ panicked j1
      → post_process s (after_panic j1) ≡ returned j2
      → (w' : World) × (to_queue (estimation_job s) true j w ≡ stop j2 w')
        × (w'.sent
            ≡ j2.job_data
              ∷ record (j1.job_data) { status = failed }
              ∷ record (j.job_data) { status = running }
              ∷ w.sent)
  unfolding to_queue send record_own record_status set_status set_use_job_info_update is_finished
      clone clone_data
  process_panic_is_post_processed j j1 j2 w f p q =
      let k = set_status (estimation_job s) running j in
      let same = subst (IsCounted (length k.preprocessed_qasms) k) p (process-IsCounted s k) in
      let ended = (subst (EndsEstimated s (after_panic j1)) q (post_process-EndsEstimated s _)).0 in
      (
        send (estimation_job s) j2 (record_own (estimation_job s) j2 (failed_world j j1 w)),
        rw (panicked_work j j1 w p) (
            post_processed (set_status (estimation_job s) failed j1) j2 (failed_world j j1 w)
              (ap some (same ∙ f)) q (ap some ended)),
        refl,
      )
