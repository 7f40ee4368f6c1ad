-- ===== src/Examples/Storage.antt =====
-- The factory of jobs and the database in memory.
use oqtopus_engine.Prelude.{some, List, [], ◌∷◌, ok, ◌≡◌, refl, ◌↔◌}
use oqtopus_engine.Prelude.Int.{pos}
use oqtopus_engine.Core.Status.{ready}
use oqtopus_engine.Core.Manager.{
  JobClass, normal_job, sampling_job, JobManager, JobParam, new_job_manager, register_all,
  register_one, job_type, validate_job_param,
}
use oqtopus_engine.Core.Manager.Laws.{IsAcceptable, validate_job_param-eq-ok}
use oqtopus_engine.Core.MemoryDb.{MemoryDb}
use oqtopus_engine.Examples.Samples.{job_in, small_device, no_transpiler}

abbrev registered : List JobClass
registered = normal_job ∷ sampling_job ∷ []

abbrev manager : JobManager
manager = record { acceptable_jobs = registered }

manager_run : new_job_manager registered ≡ ok manager
unfolding new_job_manager register_all register_one job_type
manager_run = refl

abbrev param : JobParam
param = record {
  job_id = "job-1";
  qasm = "h q[0];";
  shots = pos 1000;
  transpiler = some no_transpiler;
  job_type = "normal";
}

validate_job_param-eq-ok_example :
    (validate_job_param small_device param ≡ ok tt) ↔ IsAcceptable small_device param no_transpiler
validate_job_param-eq-ok_example = validate_job_param-eq-ok small_device param no_transpiler refl

abbrev stored : MemoryDb
stored = record { db_map = ("job-1", job_in ready) ∷ [] }
