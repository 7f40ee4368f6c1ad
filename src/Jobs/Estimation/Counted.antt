-- ===== src/Jobs/Estimation/Counted.antt =====
-- What the stages of an estimation job leave.
use oqtopus_engine.Prelude.{
  ℕ, ◌+◌, String, Bool, true, false, some, List, [], ◌∷◌, ◌++◌, suc, ap, if◌then◌else◌, Outcome, ok,
  err, panic, ◌>>=◌, ◌≡◌, ◌⊎◌, inl, inr, refl, length, length-append, arith, >>=-eq-ok,
}
use oqtopus_engine.Core.Status.{succeeded, failed, is_failed}
use oqtopus_engine.Core.Data.{JobData, Counts, Estimation, set_failure}
use oqtopus_engine.Core.Job.{Call, done, Run, returned, panicked}
use oqtopus_engine.Core.Fault.{Fault}
use oqtopus_engine.Mitigation.{new_mitigation_info_from_job_data}
use oqtopus_engine.Jobs.Estimation.State.{EstimationJob, Services, address}
use oqtopus_engine.Jobs.Estimation.{
  process, process_from, set_program, mitigate_all, mitigate_counts, post_process, take_estimation,
  should_mitigate,
}

-- The job failed and counts as finished, or it has the counts of `n` more circuits.
abbrev pub IsCounted : ℕ → EstimationJob → Run EstimationJob → Type 0
IsCounted n j (returned j1) =
    ((j1.finished ≡ true) × (j1.job_data.status ≡ failed))
    ⊎ ((length j1.counts_list ≡ length j.counts_list + n) × (j1.finished ≡ j.finished))
IsCounted n j (panicked j1) = j1.finished ≡ j.finished

failed_status : (d : JobData) → is_failed d.status ≡ true → d.status ≡ failed
failed_status d h = ground arith

process_from-IsCounted :
    (s : Services) (qs : List String) (j : EstimationJob)
    → IsCounted (length qs) j (process_from s qs j)
unfolding process_from set_program
process_from-IsCounted s [] j = inr (omega arith, refl)
process_from-IsCounted s (q ∷ qs) j =
    by (s.send (set_program q j).job_data) (process_from-IsCounted s qs)
  where
    j1 : EstimationJob
    j1 = set_program q j

    one_more :
        (d : JobData) (r : Run EstimationJob)
        → IsCounted
            (length qs)
            (record j1 { job_data = d; counts_list = j1.counts_list ++ d.result.counts ∷ [] })
            r
        → IsCounted (length (q ∷ qs)) j r
    one_more d (returned j2) (inl h) = inl h
    one_more d (returned j2) (inr (n, f)) =
        inr (omega (arith, n, length-append j.counts_list (d.result.counts ∷ [])), f)
    one_more d (panicked j2) h = h

    by :
        (o : Call JobData)
        → ((j2 : EstimationJob) → IsCounted (length qs) j2 (process_from s qs j2))
        → IsCounted (length (q ∷ qs)) j (elim o [
          | Call.failed e d ↦
              returned (record j1 { job_data = record d { status = failed }; finished = true })
          | Call.panicked d ↦ panicked (record j1 { job_data = d })
          | done d ↦ elim (is_failed d.status) [
            | true ↦ returned (record j1 { job_data = d; finished = true })
            | false ↦
                process_from s qs
                  (record j1 { job_data = d; counts_list = j1.counts_list ++ d.result.counts ∷ [] })
          ]
        ])
    by (Call.failed e d) ih = inl (refl, refl)
    by (Call.panicked d) ih = refl
    by (done d) ih = tested (is_failed d.status) refl
      where
        tested :
            (b : Bool)
            → is_failed d.status ≡ b
            → IsCounted (length (q ∷ qs)) j (elim b [
              | true ↦ returned (record j1 { job_data = d; finished = true })
              | false ↦
                  process_from s qs (record j1 {
                    job_data = d;
                    counts_list = j1.counts_list ++ d.result.counts ∷ [];
                  })
            ])
        tested true h = inl (refl, failed_status d h)
        tested false h = one_more d _ (ih _)

-- If the processing of an estimation job returns, the job is finished and FAILED, or it has one more counts
-- for each circuit that the estimator asked for and is not finished by it.
pub process-IsCounted :
    (s : Services) (j : EstimationJob) → IsCounted (length j.preprocessed_qasms) j (process s j)
unfolding process
process-IsCounted s j = process_from-IsCounted s j.preprocessed_qasms j

mitigate_all-length :
    (s : Services) (mitigates : Bool) (jd : JobData) (cs out : List Counts)
    → mitigate_all s mitigates jd cs ≡ ok out
    → length out ≡ length cs
unfolding mitigate_all
mitigate_all-length s mitigates jd [] out h = let same : [] ≡ out = cc in rw (← same)
mitigate_all-length s mitigates jd (c ∷ cs) out h =
    let (c1, e, h1) = >>=-eq-ok (if mitigates then mitigate_counts s jd c else ok c) _ h in
    let (rest, f, h2) = >>=-eq-ok (mitigate_all s mitigates jd cs) _ h1 in
    let same : c1 ∷ rest ≡ out = cc in
    rw (← same) (ap suc (mitigate_all-length s mitigates jd cs rest f))

-- The counts that the estimator was asked with, and its answer.
abbrev pub IsEstimated : Services → EstimationJob → EstimationJob → Type 0
IsEstimated s j j1 =
    (counts : List Counts) × (e : Estimation) × (length counts ≡ length j.counts_list)
    × (s.estimator_post (address j)
          (record { counts = counts; grouped_operators = j.grouped_operators })
        ≡ ok e)
    × (j1.job_data.status ≡ succeeded)
    × (j1.job_data.result.estimation ≡ some e)

abbrev pub EndsEstimated : Services → EstimationJob → Run EstimationJob → Type 0
EndsEstimated s j (returned j1) =
    (j1.finished ≡ true) × (IsEstimated s j j1 ⊎ (j1.job_data.status ≡ failed))
EndsEstimated s j (panicked j1) = j1.finished ≡ true

-- If the post-processing of an estimation job returns, the job is finished. It is SUCCEEDED with the
-- estimator's answer to a request with one counts for each that the job collected, or it is FAILED.
pub post_process-EndsEstimated :
    (s : Services) (j : EstimationJob) → EndsEstimated s j (post_process s j)
unfolding post_process take_estimation set_failure
post_process-EndsEstimated s j = by _ refl
  where
    mitigates : Bool
    mitigates = should_mitigate s.json (new_mitigation_info_from_job_data s.json j.job_data)

    answer : Outcome Fault Estimation
    answer = mitigate_all s mitigates j.job_data j.counts_list >>= λ counts.
        s.estimator_post (address j)
          (record { counts = counts; grouped_operators = j.grouped_operators })

    by :
        (o : Outcome Fault Estimation)
        → answer ≡ o
        → EndsEstimated s j (take_estimation s (record j { finished = true }) o)
    by (ok e) h =
        let (counts, f, g) = >>=-eq-ok (mitigate_all s mitigates j.job_data j.counts_list) _ h in
        (
          refl,
          inl (
            counts,
            e,
            mitigate_all-length s mitigates j.job_data j.counts_list counts f,
            g,
            refl,
            refl,
          ),
        )
    by (err e) h = (refl, inr refl)
    by panic h = refl
