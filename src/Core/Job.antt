-- ===== src/Core/Job.antt =====
-- coreapp/core/job.go: the interface `Job`. A method changes the job in place, so it gives back the
-- job, also where it returns an error and where it panics: what was written stays written.
use oqtopus_engine.Prelude.{Bool, Option, ◌≡◌, ◌≢◌}
use oqtopus_engine.Core.Fault.{Fault}
use oqtopus_engine.Core.Status.{ready}
use oqtopus_engine.Core.Data.{JobData}

-- A call of a method that returns an error or nil.
pub data Call (S : Type 0) : Type 0 where
  done : S → Call S
  failed : Fault → S → Call S
  panicked : S → Call S

infixl 5 ◌>>=◌
abbrev pub ◌>>=◌ : {S : Type 0} → Call S → (S → Call S) → Call S
done s >>= f = f s
failed e s >>= f = failed e s
panicked s >>= f = panicked s

-- A call of a method that returns nothing.
pub data Run (S : Type 0) : Type 0 where
  returned : S → Run S
  panicked : S → Run S

-- The job that a call leaves behind.
abbrev pub left : {S : Type 0} → Run S → S
left (Run.returned s) = s
left (Run.panicked s) = s

abbrev pub left_of : {S : Type 0} → Call S → S
left_of (done s) = s
left_of (failed e s) = s
left_of (panicked s) = s

-- `IsFinished` is `none` where it panics.
pub record JobInterface (J : Type 0) : Type 0 where
  pub pre_process : J → Run J
  pub process : J → Run J
  pub post_process : J → Run J
  pub is_finished : J → Option Bool
  pub job_data : J → JobData
  pub with_job_data : J → JobData → J
  pub clone : J → J
  pub job_data-with : (j : J) (d : JobData) → job_data (with_job_data j d) ≡ d
  pub job_data-clone : (j : J) → job_data (clone j) ≡ job_data j

module _ {J : Type 0} (job : JobInterface J) where
  open job use {job_data, process, post_process, pre_process}

  -- No method changes the identity of the job.
  pub record KeepsId : Type 0 where
    pub pre_id : (j : J) → (job_data (left (pre_process j))).id ≡ (job_data j).id
    pub process_id : (j : J) → (job_data (left (process j))).id ≡ (job_data j).id
    pub post_id : (j : J) → (job_data (left (post_process j))).id ≡ (job_data j).id

  -- Processing and post-processing never put a job back to READY.
  pub record NeverReady : Type 0 where
    pub process_ready :
        (j : J) → (job_data j).status ≢ ready → (job_data (left (process j))).status ≢ ready
    pub post_ready :
        (j : J) → (job_data j).status ≢ ready → (job_data (left (post_process j))).status ≢ ready

  -- Post-processing leaves alone the flag that asks the database for the full update.
  pub record KeepsFlag : Type 0 where
    pub post_flag :
        (j : J)
        → (job_data (left (post_process j))).use_job_info_update ≡ (job_data j).use_job_info_update
