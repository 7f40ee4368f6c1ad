-- ===== src/Jobs/Normal.antt =====
-- coreapp/core/job.go: `NormalJob` and `UnknownJob`. The transpiler and the device are the interfaces
-- `Transpiler` and `QPUManager`, which the container resolves: each is a call that changes the job's data.
use oqtopus_engine.Prelude.{ℕ, Bool, true, false, Option, some, ok, err, panic, ◌≡◌, refl}
use oqtopus_engine.Core.Status.{failed}
use oqtopus_engine.Core.Data.{JobData, need_transpiling, set_failure, is_done, clone_data}
use oqtopus_engine.Core.Job.{Call, done, Run, returned, panicked, JobInterface}

pub record Container : Type 0 where
  pub transpile : JobData → Call JobData
  pub send : JobData → Call JobData
  -- the time that a failure is stamped with
  pub now : ℕ

unfoldable pub pre_process_impl : Container → JobData → Call JobData
unfolding need_transpiling
pre_process_impl c jd = elim (need_transpiling jd) [
  | ok true ↦ c.transpile jd
  | ok false ↦ done jd
  | err e ↦ Call.failed e jd
  | panic ↦ Call.panicked jd
]

unfoldable pub pre_process : Container → JobData → Run JobData
unfolding pre_process_impl set_failure
pre_process c jd = elim (pre_process_impl c jd) [
  | done d ↦ returned d
  | Call.failed e d ↦ returned (set_failure c.now e d)
  | Call.panicked d ↦ panicked d
]

unfoldable pub process : Container → JobData → Run JobData
process c jd = elim (c.send jd) [
  | done d ↦ returned d
  | Call.failed e d ↦ returned (record d { status = failed })
  | Call.panicked d ↦ panicked d
]

unfoldable pub post_process : JobData → Run JobData
post_process jd = returned jd

unfoldable pub is_finished : JobData → Option Bool
is_finished jd = some (is_done jd.status)

pub clone_data-eq : (jd : JobData) → clone_data jd ≡ jd
unfolding clone_data
clone_data-eq jd = refl

-- A normal job is its data; its context is the state of the scheduler.
abbrev pub normal_job : Container → JobInterface JobData
normal_job c = record {
  pre_process = pre_process c;
  process = process c;
  post_process = post_process;
  is_finished = is_finished;
  job_data = λ jd. jd;
  with_job_data = λ jd d. d;
  clone = clone_data;
  job_data-with = λ j d. refl;
  job_data-clone = clone_data-eq;
}

unfoldable pub unknown_step : JobData → Run JobData
unknown_step jd = returned jd

-- `UnknownJob`, whose three stages do nothing.
abbrev pub unknown_job : JobInterface JobData
unknown_job = record {
  pre_process = unknown_step;
  process = unknown_step;
  post_process = unknown_step;
  is_finished = is_finished;
  job_data = λ jd. jd;
  with_job_data = λ jd d. d;
  clone = clone_data;
  job_data-with = λ j d. refl;
  job_data-clone = clone_data-eq;
}
