-- ===== src/Jobs/Sampling/Scheduled.antt =====
-- A sampling job in the scheduler.
use oqtopus_engine.Prelude.{
  ℕ, Bool, true, false, Option, none, some, ◌≡◌, ◌≢◌, refl, ap, ◌⊎◌, inl, inr, arith, subst, ◌∙◌,
}
use oqtopus_engine.Core.Status.{
  Status, submitted, ready, running, succeeded, failed, cancelled, is_ready, is_failed,
  is_succeeded,
}
use oqtopus_engine.Core.Data.{JobData}
use oqtopus_engine.Core.Job.{Call, done, Run, returned, panicked, left, KeepsFlag}
use oqtopus_engine.Mitigation.{Mitigator, MitigationInfo, pseudo_inverse_mitigation}
use oqtopus_engine.Mitigation.Ends.{IsMitigated, pseudo_inverse-IsMitigated}
use oqtopus_engine.Jobs.Sampling.{
  SamplingJob, Container, process, should_mitigate, on_data, post_process, is_finished,
  sampling_job,
}
use oqtopus_engine.Qpu.Gateway.Send.Laws.{IsFinal}
use oqtopus_engine.Scheduler.Handle.{World, handle_impl, set_use_job_info_update, set_status}
use oqtopus_engine.Scheduler.Handle.Settled.{Settles, Settled, flagged, worked, handle_impl-Settled}

abbrev flag_of : SamplingJob → Bool
flag_of j = j.job_data.use_job_info_update

mitigated_flag :
    (m : Mitigator) (jd : JobData) (r : Run JobData)
    → IsMitigated m jd r
    → (left r).use_job_info_update ≡ jd.use_job_info_update
mitigated_flag m jd (returned d) (inl (n, a, s, f, e)) =
    ap (λ (x : JobData). x.use_job_info_update) e
mitigated_flag m jd (returned d) (inr (inl e)) = ap (λ (x : JobData). x.use_job_info_update) e
mitigated_flag m jd (returned d) (inr (inr (u, e))) = ap (λ (x : JobData). x.use_job_info_update) e
mitigated_flag m jd (panicked d) e = ap (λ (x : JobData). x.use_job_info_update) e

on_data_flag :
    (j : SamplingJob) (r : Run JobData)
    → flag_of (left (on_data j r)) ≡ (left r).use_job_info_update
unfolding on_data
on_data_flag j (returned d) = refl
on_data_flag j (panicked d) = refl

module _ (c : Container) where
  post_process_flag : (j : SamplingJob) → flag_of (left (post_process c j)) ≡ flag_of j
  unfolding post_process
  post_process_flag j = by j.mitigation_info
    where
      mitigated :
          (i : MitigationInfo) (b : Bool)
          → let j1 = record j { mitigation_info = some (record i { mitigated = true }) } in
            flag_of (
              left (elim b [
                | true ↦ on_data j1 (pseudo_inverse_mitigation c.mitigator j1.job_data)
                | false ↦ returned j1
              ]))
            ≡ flag_of j
      mitigated i true =
          on_data_flag (record j { mitigation_info = some (record i { mitigated = true }) })
            (pseudo_inverse_mitigation c.mitigator j.job_data)
          ∙ mitigated_flag c.mitigator j.job_data (pseudo_inverse_mitigation c.mitigator j.job_data)
              (pseudo_inverse-IsMitigated c.mitigator j.job_data)
      mitigated i false = refl

      by :
          (o : Option MitigationInfo)
          → flag_of (
              left (elim o [
                | none ↦ panicked j
                | some i ↦
                    let j1 = record j { mitigation_info = some (record i { mitigated = true }) } in
                    elim (should_mitigate c.json i) [
                      | true ↦ on_data j1 (pseudo_inverse_mitigation c.mitigator j1.job_data)
                      | false ↦ returned j1
                    ]
              ]))
            ≡ flag_of j
      by none = refl
      by (some i) = mitigated i (should_mitigate c.json i)

  pub sampling_job-KeepsFlag : KeepsFlag (sampling_job c)
  sampling_job-KeepsFlag = record { post_flag = post_process_flag }

  abbrev IsFinalStatus : Status → Type 0
  IsFinalStatus st = (st ≡ succeeded) ⊎ (st ≡ failed)

  abbrev Needs : Option MitigationInfo → Type 0
  Needs o = (i : MitigationInfo) × (o ≡ some i) × (i.need_to_be_mitigated ≡ true)

  -- A job with a final status that is not finished is to be mitigated.
  unfinished-Needs :
      (j : SamplingJob)
      → IsFinalStatus j.job_data.status
      → is_finished j ≡ some false
      → Needs j.mitigation_info
  unfolding is_finished
  unfinished-Needs j = by j.job_data.status j.mitigation_info
    where
      needed :
          (i : MitigationInfo) (b : Bool)
          → i.need_to_be_mitigated ≡ b
          → (elim b [ true ↦ some i.mitigated | false ↦ some true ]) ≡ some false
          → Needs (some i)
      needed i true n h = (i, refl, n)
      needed i false n h = cc

      by :
          (st : Status) (o : Option MitigationInfo)
          → IsFinalStatus st
          → (elim (is_failed st) [
            | true ↦ some true
            | false ↦ elim o [
              | none ↦ none
              | some i ↦ elim i.need_to_be_mitigated [
                | true ↦ some i.mitigated
                | false ↦ some (is_succeeded st)
              ]
            ]
          ])
            ≡ some false
          → Needs o
      by succeeded none k h = cc
      by succeeded (some i) k h = needed i i.need_to_be_mitigated refl h
      by failed o k h = cc
      by submitted o k h = absurd (ground arith)
      by ready o k h = absurd (ground arith)
      by running o k h = absurd (ground arith)
      by cancelled o k h = absurd (ground arith)

  -- Once it is marked as mitigated, such a job is finished.
  marked :
      (j : SamplingJob) (i : MitigationInfo)
      → j.mitigation_info ≡ some i
      → i.need_to_be_mitigated ≡ true
      → i.mitigated ≡ true
      → is_finished j ≡ some true
  unfolding is_finished
  marked j i e n k = rw (e, n, k) (by (is_failed j.job_data.status))
    where
      by : (b : Bool) → (elim b [ true ↦ some true | false ↦ some true ]) ≡ some true
      by true = refl
      by false = refl

  abbrev Marks : Run SamplingJob → Type 0
  Marks (returned j) = is_finished j ≡ some true
  Marks (panicked j) = Unit {0}

  post_process-Marks : (j : SamplingJob) → Needs j.mitigation_info → Marks (post_process c j)
  unfolding post_process on_data
  post_process-Marks j (i, e, n) =
      rw e (by (should_mitigate c.json i) (pseudo_inverse_mitigation c.mitigator j.job_data))
    where
      j1 : SamplingJob
      j1 = record j { mitigation_info = some (record i { mitigated = true }) }

      by :
          (b : Bool) (r : Run JobData)
          → Marks (elim b [ true ↦ on_data j1 r | false ↦ returned j1 ])
      by true (returned d) =
          marked (record j1 { job_data = d }) (record i { mitigated = true }) refl n refl
      by true (panicked d) = tt
      by false r = marked j1 (record i { mitigated = true }) refl n refl

  module _ (final : (jd : JobData) → IsFinal jd (c.send jd)) where
    worked_status : (j : SamplingJob) → IsFinalStatus (worked (sampling_job c) j).job_data.status
    unfolding process set_status
    worked_status j = by (c.send j.job_data) (final j.job_data)
      where
        by :
            (o : Call JobData)
            → IsFinal j.job_data o
            → IsFinalStatus
                (elim (elim o as (λ _. Run SamplingJob) [
                  | done d ↦ returned (record j { job_data = d })
                  | Call.failed e d ↦
                      returned (record j { job_data = record d { status = failed } })
                  | Call.panicked d ↦ panicked (record j { job_data = d })
                ])
                  as (λ _. SamplingJob) [
                    | returned j1 ↦ j1
                    | panicked j1 ↦ set_status (sampling_job c) failed j1
                  ]).job_data.status
        by (done d) (k, s) = s
        by (Call.failed e d) k = inr refl
        by (Call.panicked d) k = inr refl

    pub sampling_job-Settles : Settles (sampling_job c)
    unfolding set_use_job_info_update
    sampling_job-Settles = record { settled = settled }
      where
        settled :
            (j j1 : SamplingJob)
            → is_finished (flagged (sampling_job c) (worked (sampling_job c) j)) ≡ some false
            → post_process c (flagged (sampling_job c) (worked (sampling_job c) j)) ≡ returned j1
            → is_finished j1 ≢ some false
        settled j j1 f e g =
            let k = flagged (sampling_job c) (worked (sampling_job c) j) in
            let m = post_process-Marks k (unfinished-Needs k (worked_status j) f) in
            let done_with : is_finished j1 ≡ some true = subst Marks e m in cc

    -- With a `send` that leaves a final status where it returns, as the gateway's does, a READY sampling job
    -- that finds a place in the queue is always handled to the end, whatever the transpiler and the
    -- mitigator do, panics included: the last job that is sent to the database is the job as it stands,
    -- and it is finished with the full update asked for, or FAILED.
    pub sampling_job-Settled :
        (room : ℕ → Bool) (j : SamplingJob) (w : World)
        → room 0 ≡ true
        → is_ready j.job_data.status ≡ true
        → Settled (sampling_job c) (handle_impl (sampling_job c) room j w)
    sampling_job-Settled room j w r h =
        handle_impl-Settled (sampling_job c) sampling_job-Settles sampling_job-KeepsFlag room j w r
          h
