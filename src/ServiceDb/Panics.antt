-- ===== src/ServiceDb/Panics.antt =====
-- What the cloud learns of a job whose pre-processing panics: the scheduler's recover path and the
-- database together.
use oqtopus_engine.Prelude.{Bool, true, false, some, [], ◌≡◌, refl}
use oqtopus_engine.Core.Status.{failed, is_ready}
use oqtopus_engine.Core.Data.{JobData}
use oqtopus_engine.Core.Job.{JobInterface, panicked}
use oqtopus_engine.Converter.Outgoing.{Encoder}
use oqtopus_engine.ServiceDb.{Request, update}
use oqtopus_engine.ServiceDb.Reports.{update_flag_off}
use oqtopus_engine.Scheduler.Handle.{
  World, Round, stop, wait, again, round, recover, send, set_status, set_use_job_info_update,
  record_own,
}
use oqtopus_engine.Scheduler.Handle.Report.{latest}

module _ (encoder : Encoder) (accepts : Request → Bool) {J : Type 0} (job : JobInterface J) where
  open job use {job_data, pre_process}

  -- The round ends, the last message to the database is the job in FAILED, and the database makes no
  -- request for it.
  abbrev pub IsSilent : Round job → Type 0
  IsSilent (stop j w) =
      (d : JobData) × (latest w.sent ≡ some d)
      × (d.status ≡ failed)
      × ((update encoder accepts d).0 ≡ [])
  IsSilent (wait j w) = ⊥
  IsSilent (again j w) = ⊥

  recover-IsSilent :
      (j : J) (w : World) → (job_data j).use_job_info_update ≡ false → IsSilent (recover job j w)
  unfolding recover send set_status
  recover-IsSilent j w h =
      let d = record (job_data j) { status = failed } in
      (
        d,
        rw (job.job_data-clone, job.job_data-with j d) refl,
        refl,
        update_flag_off encoder accepts d h,
      )

  -- If the pre-processing of a READY job panics with the flag for the full update still off, then the last
  -- message to the database is the job in FAILED, and the database makes no request for it: the cloud is
  -- not told of the failure.
  pub pre_process_panic-IsSilent :
      (room : Bool) (j j2 : J) (w : World)
      → is_ready (job_data j).status ≡ true
      → pre_process (set_use_job_info_update job false j) ≡ panicked j2
      → (job_data j2).use_job_info_update ≡ false
      → IsSilent (round job room j w)
  unfolding round set_use_job_info_update
  pre_process_panic-IsSilent room j j2 w ready e flag =
      rw (still_ready, e)
        (recover-IsSilent j2 (record_own job (set_use_job_info_update job false j) w) flag)
    where
      still_ready : is_ready (job_data (set_use_job_info_update job false j)).status ≡ true
      still_ready =
          rw (job.job_data-with j (record (job_data j) { use_job_info_update = false })) ready
