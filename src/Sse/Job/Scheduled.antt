-- ===== src/Sse/Job/Scheduled.antt =====
-- An SSE job in the scheduler.
use oqtopus_engine.Prelude.{
  ℕ, Bool, true, Option, none, some, List, Outcome, ok, err, panic, ◌>>=◌, ◌≡◌, refl, ap, ◌⊎◌, inl,
  inr, ◌∙◌,
}
use oqtopus_engine.Prelude.Dict.{Dict}
use oqtopus_engine.Core.Fault.{Fault}
use oqtopus_engine.Core.Status.{is_ready, failed, to_status}
use oqtopus_engine.Core.Mapping.{to_map}
use oqtopus_engine.Core.Data.{JobData, is_done, set_failure}
use oqtopus_engine.Core.Job.{Run, returned, panicked, KeepsFlag}
use oqtopus_engine.Sse.Steps.{
  Op, delete_dir, Environment, Step, ResultFile, ask, stop_container, remove_container,
}
use oqtopus_engine.Sse.{
  End, or_return, finish, set_final, read_result, take_result, set_result, run_sse,
}
use oqtopus_engine.Sse.Ends.{run_sse-Q}
use oqtopus_engine.Sse.Job.{
  SseJob, Container, process, post_process, is_finished, mark_ended, sse_job,
}
use oqtopus_engine.Scheduler.Handle.{World, handle_impl, set_use_job_info_update, set_status}
use oqtopus_engine.Scheduler.Handle.Settled.{Settles, Settled, flagged, worked, handle_impl-Settled}

-- The result file of a run names a final status.
abbrev pub NamesEnd : Environment → Type 0
NamesEnd e =
    (r : ResultFile) → e.result_file ≡ ok r → (r.status ≡ "succeeded") ⊎ (r.status ≡ "failed")

module _ (e : Environment) where
  or_return-job :
      (jd : JobData) (s : Step) (next : List Op → End e)
      → ((log : List Op) → (next log).job ≡ jd)
      → (or_return e jd s next).job ≡ jd
  or_return-job jd (none, log) next h = h log
  or_return-job jd (some f, log) next h = refl

  finish-job : (jd : JobData) (o : Option Fault) (log : List Op) → (finish e jd o log).job ≡ jd
  unfolding finish
  finish-job jd o log = or_return-job jd (stop_container e log) second (λ log1.
      or_return-job jd (remove_container e log1) third (λ log2.
        or_return-job jd (ask e delete_dir "failed to delete tmp directory" log2) last
          (λ log3. refl)))
    where
      last : List Op → End e
      last log3 = record { job = jd; error = o; requests = log3 }

      third : List Op → End e
      third log2 = or_return e jd (ask e delete_dir "failed to delete tmp directory" log2) last

      second : List Op → End e
      second log1 = or_return e jd (remove_container e log1) third

  set_final-done :
      (r : ResultFile) (m : Dict ℕ ℕ) (jd : JobData)
      → (r.status ≡ "succeeded") ⊎ (r.status ≡ "failed")
      → is_done (set_final e r m jd).0.status ≡ true
  unfolding set_final to_status
  set_final-done r m jd (inl h) = rw h refl
  set_final-done r m jd (inr h) = rw h refl

  module _ (names : NamesEnd e) where
    set_result-done :
        (jd : JobData) → (set_result e jd).1 ≡ none → is_done (set_result e jd).0.status ≡ true
    unfolding set_result read_result
    set_result-done jd = by e.result_file refl
      where
        mapped :
            (r : ResultFile) (o : Outcome Fault (Dict ℕ ℕ))
            → e.result_file ≡ ok r
            → (take_result e jd (o >>= λ m. ok (r, m))).1 ≡ none
            → is_done (take_result e jd (o >>= λ m. ok (r, m))).0.status ≡ true
        mapped r (ok m) q h = set_final-done r m jd (names r q)
        mapped r (err f) q h = cc
        mapped r panic q h = cc

        by :
            (o : Outcome Fault ResultFile)
            → e.result_file ≡ o
            → let t = take_result e jd (
                o >>= λ r.
                to_map (e.decode_mapping r.virtual_physical_mapping_raw) >>= λ m. ok (r, m)) in
              t.1 ≡ none → is_done t.0.status ≡ true
        by (ok r) q h = mapped r (to_map (e.decode_mapping r.virtual_physical_mapping_raw)) q h
        by (err f) q h = cc
        by panic q h = cc

    run_sse-done :
        (jd : JobData) → (run_sse e jd).error ≡ none → is_done (run_sse e jd).job.status ≡ true
    run_sse-done jd =
        run_sse-Q e (λ r. r.error ≡ none → is_done r.job.status ≡ true) (λ jd1 f log q. cc) jd
          (λ h o log _.
            ap (λ (x : JobData). is_done x.status) (finish-job (set_result e jd).0 o log)
            ∙ set_result-done jd h)
          (λ f q. cc)

module _ (c : Container) where
  sse_job-KeepsFlag : KeepsFlag (sse_job c)
  unfolding post_process
  sse_job-KeepsFlag = record { post_flag = λ j. refl }

  module _ (names : NamesEnd c.environment) where
    worked-IsFinished :
        (j : SseJob) → is_finished (flagged (sse_job c) (worked (sse_job c) j)) ≡ some true
    unfolding process is_finished set_use_job_info_update set_failure mark_ended
    worked-IsFinished j = by (run_sse c.environment j.job_data).error refl
      where
        by :
            (o : Option Fault)
            → (run_sse c.environment j.job_data).error ≡ o
            → is_finished (
                flagged
                  (sse_job c)
                  (elim (elim o as (λ _. Run SseJob) [
                    | some f ↦ returned (record j {
                      job_data = set_failure c.now f (run_sse c.environment j.job_data).job;
                    })
                    | none ↦ returned (record j {
                      job_data = mark_ended c (run_sse c.environment j.job_data).job;
                    })
                  ])
                    as (λ _. SseJob) [
                      | returned j1 ↦ j1
                      | panicked j1 ↦ set_status (sse_job c) failed j1
                    ]))
              ≡ some true
        by (some f) q = refl
        by none q = ap some (run_sse-done c.environment names j.job_data q)

    sse_job-Settles : Settles (sse_job c)
    sse_job-Settles = record { settled = λ j j1 f p g. let h = worked-IsFinished j in cc }

    -- An SSE job in status READY that finds a place in the queue is handled to the end, whatever fails on the way:
    -- in the preparation, in the container, in its clean-up. The last job that is sent to the database is the job
    -- as it stands, and it is finished with the full update asked for, or FAILED. The result file, where there is
    -- one, is supposed to name "succeeded" or "failed".
    pub sse_job-Settled :
        (room : ℕ → Bool) (j : SseJob) (w : World)
        → room 0 ≡ true
        → is_ready j.job_data.status ≡ true
        → Settled (sse_job c) (handle_impl (sse_job c) room j w)
    sse_job-Settled room j w r h =
        handle_impl-Settled (sse_job c) sse_job-Settles sse_job-KeepsFlag room j w r h
