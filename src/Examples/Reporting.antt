-- ===== src/Examples/Reporting.antt =====
-- What the cloud is told of some jobs.
use oqtopus_engine.Prelude.{Bool, true, none, some, [], refl}
use oqtopus_engine.Core.Status.{ready, failed}
use oqtopus_engine.Core.Data.{JobData, TranspilerInfo, is_done}
use oqtopus_engine.Core.Job.{JobInterface, Run, returned}
use oqtopus_engine.Converter.Outgoing.{Encoder}
use oqtopus_engine.ServiceDb.{Request, update}
use oqtopus_engine.ServiceDb.Reports.{IsFull, update_flag_on-IsFull}
use oqtopus_engine.ServiceDb.Panics.{IsSilent, pre_process_panic-IsSilent}
use oqtopus_engine.Scheduler.Handle.{World, round, set_use_job_info_update}
use oqtopus_engine.Examples.Samples.{job_in, no_transpiler}

abbrev encoder : Encoder
encoder = record {
  decode_raw_map = λ s. none;
  decode_texts = λ s. none;
  encode_config = λ c. some [];
}

abbrev online : Request → Bool
online r = true

abbrev empty_info : TranspilerInfo
empty_info = record {
  stats_raw = none;
  physical_virtual_mapping = [];
  virtual_physical_mapping_raw = none;
  virtual_physical_mapping_map = [];
}

-- A job to be reported in full.
abbrev reported : JobData
reported = record (job_in failed) {
  use_job_info_update = true;
  result = record ((job_in failed).result) { transpiler_info = some empty_info };
}

update_flag_on-IsFull_example : IsFull encoder online reported (update encoder online reported)
update_flag_on-IsFull_example =
    update_flag_on-IsFull encoder online reported no_transpiler empty_info refl refl refl

-- A kind of job whose pre-processing panics.
abbrev broken_job : JobInterface JobData
broken_job = record {
  pre_process = λ d. Run.panicked d;
  process = λ d. returned d;
  post_process = λ d. returned d;
  is_finished = λ d. some (is_done d.status);
  job_data = λ d. d;
  with_job_data = λ j d. d;
  clone = λ d. d;
  job_data-with = λ j d. refl;
  job_data-clone = λ j. refl;
}

abbrev idle_world : World
idle_world = record { status_history = []; sent = [] }

pre_process_panic-IsSilent_example :
    IsSilent encoder online broken_job (round broken_job true (job_in ready) idle_world)
unfolding set_use_job_info_update
pre_process_panic-IsSilent_example =
    pre_process_panic-IsSilent encoder online broken_job true (job_in ready) (job_in ready)
      idle_world refl refl refl
