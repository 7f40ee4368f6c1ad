-- ===== src/Poller/Client.antt =====
-- coreapp/poller/awspollclient.go: `toJobSlice`, which makes jobs of what the cloud sent. The inner
-- `err` shadows the returned one, and the `break` of the unknown type leaves only the `switch`;
-- the client of the API refuses a job of an unknown type before it gets here.
pub mod Making
pub mod Slices
use oqtopus_engine.Prelude.{
  ℕ, Bool, true, false, List, [], ◌∷◌, ◌++◌, Outcome, ok, err, panic, ◌>>=◌,
}
use oqtopus_engine.Core.Fault.{Fault}
use oqtopus_engine.Core.Data.{JobData, set_failure}
use oqtopus_engine.Core.Manager.{
  JobClass, unknown_job, JobManager, Environment, with_default_type,
  new_job_from_job_data_with_validation,
}
use oqtopus_engine.Converter.{
  Codec, CloudJob, CloudJobType, other_type, convert_job_type, convert_from_cloud_job,
}

-- Whether the API's type is one of the known four.
abbrev pub is_known : CloudJobType → Bool
is_known (other_type t) = false
is_known _ = true

-- The second `switch` on the type: the type of the job data, and the jobs so far.
unfoldable pub assign_type :
    CloudJobType → JobData → List (JobClass × JobData) → JobData × List (JobClass × JobData)
assign_type (other_type t) jd jobs = (jd, [])
assign_type t jd jobs = (record jd { job_type = convert_job_type t }, jobs)

-- The new job, or an `UnknownJob` that carries the failure. The default type is filled in in place.
unfoldable pub make_job :
    Environment → JobManager → ℕ → JobData → Outcome Fault (JobClass × JobData)
unfolding new_job_from_job_data_with_validation set_failure with_default_type
make_job env m now jd = elim (new_job_from_job_data_with_validation env m jd) [
  | ok j ↦ ok j
  | err e ↦ ok (unknown_job, set_failure now e (with_default_type jd))
  | panic ↦ panic
]

module _ (codec : Codec) (env : Environment) (m : JobManager) (now : ℕ) where
  -- The loop on the jobs made so far. `has_context` says whether `NewJobContext` gives a context, which
  -- depends on the set-up alone: without one the loop ends with no jobs.
  unfoldable pub to_job_slice_from :
      Bool → List (JobClass × JobData) → List CloudJob → Outcome Fault (List (JobClass × JobData))
  unfolding make_job assign_type
  to_job_slice_from has_context jobs [] = ok jobs
  to_job_slice_from true jobs (c ∷ cs) = convert_from_cloud_job codec now c >>= λ jd.
      (let (jd1, jobs1) = assign_type c.job_type jd jobs in
        make_job env m now jd1 >>= λ j. to_job_slice_from true (jobs1 ++ j ∷ []) cs)
  to_job_slice_from false jobs (c ∷ cs) = convert_from_cloud_job codec now c >>= λ jd. ok []

  unfoldable pub to_job_slice : Bool → List CloudJob → Outcome Fault (List (JobClass × JobData))
  unfolding to_job_slice_from
  to_job_slice has_context cs = to_job_slice_from has_context [] cs
