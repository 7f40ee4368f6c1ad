-- ===== src/Poller/Client/Slices.antt =====
-- The jobs that `toJobSlice` returns.
use oqtopus_engine.Prelude.{
  ℕ, true, false, List, [], ◌∷◌, ◌++◌, Outcome, ok, err, panic, ◌>>=◌, ◌≡◌, ◌≢◌, ◌⊎◌, inl, inr,
  refl, All, sym, subst, ◌∙◌, ap, str_eq,
}
use mathlib.Core.List.{append-nil, append_assoc}
use oqtopus_engine.Core.Fault.{Fault}
use oqtopus_engine.Core.Status.{failed}
use oqtopus_engine.Core.Data.{JobData}
use oqtopus_engine.Core.Manager.{JobClass, unknown_job, JobManager, Environment, job_type}
use oqtopus_engine.Converter.{
  Codec, CloudJob, CloudJobType, sampling, estimation, multi_manual, sse, other_type,
  convert_job_type, convert_from_cloud_job,
}
use oqtopus_engine.Converter.Intake.{
  Means, Named, Converts, convert_job_type-Named, convert_from_cloud_job-Converts,
}
use oqtopus_engine.Poller.Client.{is_known, assign_type, make_job, to_job_slice_from, to_job_slice}
use oqtopus_engine.Poller.Client.Making.{IsRegistered, IsMade, make_job-IsMade}

-- The API's client refuses every other type.
abbrev pub IsKnown : CloudJob → Type 0
IsKnown c = is_known c.job_type ≡ true

-- The job has a program, or is one of several circuits.
abbrev pub HasProgram : CloudJob → Type 0
HasProgram c = (c.program ≢ []) ⊎ (c.job_type ≡ multi_manual)

-- What a job of the cloud becomes: a job with its ID, that has its type, its shots and its status and a class of
-- that type, or a job of an unknown kind in status FAILED.
abbrev pub Serves : CloudJob → JobClass × JobData → Type 0
Serves c (k, d) =
    (d.id ≡ c.job_id)
    × (((job_type k ≡ ok d.job_type)
          × Named c.job_type d.job_type
          × (d.shots ≡ c.shots)
          × Means c.status d.status)
        ⊎ ((k ≡ unknown_job) × (d.status ≡ failed)))

-- One job for each, in the same order.
abbrev pub ServesEach : List CloudJob → List (JobClass × JobData) → Type 0
ServesEach [] [] = Unit {0}
ServesEach [] (j ∷ js) = ⊥
ServesEach (c ∷ cs) [] = ⊥
ServesEach (c ∷ cs) (j ∷ js) = Serves c j × ServesEach cs js

-- The second `switch` gives a type that is not empty, and drops no job.
assign_type-known :
    (t : CloudJobType) (jd : JobData) (jobs : List (JobClass × JobData))
    → is_known t ≡ true
    → (assign_type t jd jobs ≡ (record jd { job_type = convert_job_type t }, jobs))
      × (str_eq (convert_job_type t) "" ≡ false)
unfolding assign_type convert_job_type
assign_type-known sampling jd jobs h = (refl, refl)
assign_type-known estimation jd jobs h = (refl, refl)
assign_type-known multi_manual jd jobs h = (refl, refl)
assign_type-known sse jd jobs h = (refl, refl)
assign_type-known (other_type t) jd jobs h = cc

made-Serves :
    (codec : Codec) (c : CloudJob) (jd : JobData) (j : JobClass × JobData)
    → Converts codec c (ok jd)
    → IsMade (record jd { job_type = convert_job_type c.job_type }) j
    → Serves c j
made-Serves codec c jd (k, d) (same_id, shots, st, _, _, _, _, _) (i, inl (t, e)) = (
  i ∙ same_id,
  inl (
    t ∙ ap (λ (x : JobData). ok (x.job_type)) (sym e),
    subst (λ (x : JobData). Named c.job_type x.job_type) (sym e)
        (convert_job_type-Named c.job_type),
    ap (λ (x : JobData). x.shots) e ∙ shots,
    subst (λ (x : JobData). Means c.status x.status) (sym e) st,
  ),
)
made-Serves codec c jd (k, d) (same_id, _, _, _, _, _, _, _) (i, inr u) = (i ∙ same_id, inr u)

module _ (codec : Codec) (env : Environment) (m : JobManager) (now : ℕ)
    (registered : All IsRegistered m.acceptable_jobs) where
  abbrev loop :
      List (JobClass × JobData) → List CloudJob → Outcome Fault (List (JobClass × JobData))
  loop = to_job_slice_from codec env m now true

  -- The loop from these jobs on gives them, and one more for each job of the cloud.
  abbrev Continues : List (JobClass × JobData) → List CloudJob → Type 0
  Continues jobs cs =
      (out : List (JobClass × JobData)) × (loop jobs cs ≡ ok (jobs ++ out)) × ServesEach cs out

  one_round :
      (c : CloudJob) (cs : List CloudJob) (jobs : List (JobClass × JobData))
      → IsKnown c
      → HasProgram c
      → ((more : List (JobClass × JobData)) → Continues more cs)
      → Continues jobs (c ∷ cs)
  unfolding to_job_slice_from
  one_round c cs jobs known has_program rest =
      by (convert_from_cloud_job codec now c) (convert_from_cloud_job-Converts codec now c)
    where
      after : JobData → Outcome Fault (List (JobClass × JobData))
      after jd =
          let (jd1, jobs1) = assign_type c.job_type jd jobs in
          make_job env m now jd1 >>= λ j. loop (jobs1 ++ j ∷ []) cs

      joined :
          (j : JobClass × JobData) (out : List (JobClass × JobData))
          → (jobs ++ j ∷ []) ++ out ≡ jobs ++ j ∷ out
      joined j out = append_assoc jobs (j ∷ []) out

      by :
          (o : Outcome Fault JobData)
          → Converts codec c o
          → (out : List (JobClass × JobData)) × ((o >>= after) ≡ ok (jobs ++ out))
            × ServesEach (c ∷ cs) out
      by (ok jd) (i, sh, st, ty, p, x, t, ch) =
          let (a, n) = assign_type-known c.job_type jd jobs known in
          let (j, e, q) =
            make_job-IsMade env m registered now
              (record jd { job_type = convert_job_type c.job_type }) x t n in
          let (out, r, s) = rest (jobs ++ j ∷ []) in
          (
            j ∷ out,
            rw (a, e) (r ∙ ap ok (joined j out)),
            (made-Serves codec c jd j (i, sh, st, ty, p, x, t, ch) q, s),
          )
      by (err f) v = absurd v
      by panic (e, n) = elim has_program [ inl h ↦ absurd (h e) | inr h ↦ absurd (n h) ]

  loop-Continues :
      (cs : List CloudJob) (jobs : List (JobClass × JobData))
      → All IsKnown cs
      → All HasProgram cs
      → Continues jobs cs
  unfolding to_job_slice_from
  loop-Continues [] jobs k h = ([], ap ok (sym (append-nil jobs)), tt)
  loop-Continues (c ∷ cs) jobs k h =
      one_round c cs jobs k.0 h.0 (λ more. loop-Continues cs more k.1 h.1)

  -- If every fetched job has one of the four types and a program (which a job of several circuits need not have),
  -- no class of unknown jobs is registered and a job can be given a context, then `toJobSlice` returns, and it
  -- returns one job for each, in the order in which they were fetched: with the ID, the shots, the status and the
  -- type of the fetched job and a class of that type, or of the unknown kind in status FAILED with that ID.
  pub to_job_slice-Serves :
      (cs : List CloudJob)
      → All IsKnown cs
      → All HasProgram cs
      → (out : List (JobClass × JobData)) × (to_job_slice codec env m now true cs ≡ ok out)
        × ServesEach cs out
  unfolding to_job_slice
  to_job_slice-Serves cs k h = loop-Continues cs [] k h
