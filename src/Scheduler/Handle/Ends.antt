-- ===== src/Scheduler/Handle/Ends.antt =====
-- How a whole call of `handleImpl` on a READY job ends.
use oqtopus_engine.Prelude.{ℕ, ◌+◌, Bool, true, false, some, ◌≡◌, ◌≢◌, ◌⊎◌, inl, inr, refl, subst}
use oqtopus_engine.Core.Status.{ready, is_ready}
use oqtopus_engine.Core.Job.{JobInterface, KeepsFlag, NeverReady}
use oqtopus_engine.Scheduler.Handle.{
  World, Round, stop, wait, again, round, set_use_job_info_update, record_own, handle_loop, Handled,
  out_of_fuel, finished, waits, handle_impl,
}
use oqtopus_engine.Scheduler.Handle.Report.{latest, Concludes, Reports, round-Reports}
use oqtopus_engine.Scheduler.Handle.Rounds.{Leaves, round-Leaves, round-NotReady}

module _ {J : Type 0} (job : JobInterface J) where
  open job use {job_data, is_finished}

  -- The job `j` was handed back unfinished by its post-processing with a status other than READY: the
  -- next round only clears its flag and records its status.
  abbrev pub IsAbandoned : J → World → Type 0
  IsAbandoned j w =
      (j1 : J) × (w1 : World) × (is_finished j1 ≡ some false)
      × ((job_data j1).status ≢ ready)
      × (j ≡ set_use_job_info_update job false j1)
      × (w ≡ record_own job j w1)

  -- What each end of the call means; `room` is the place in the queue at the first round.
  abbrev pub Ends : Bool → Handled job → Type 0
  Ends room (finished j w) =
      ((latest w.sent ≡ some (job_data j)) × Concludes job j) ⊎ IsAbandoned j w
  Ends room (waits j w) = (room ≡ false) × (latest w.sent ≡ some (job_data j))
  Ends room out_of_fuel = ⊥

  -- For jobs whose processing does not go back to READY and whose post-processing keeps the flag, a
  -- call on a READY job always ends. It returns with the final job sent to the database, finished with
  -- the full update asked for or FAILED; or it abandons a job that post-processing left unfinished; or
  -- it waits for ever, and then the queue had no place for the job.
  pub handle_impl-Ends :
      (keeps : KeepsFlag job) (never : NeverReady job) (room : ℕ → Bool) (j : J) (w : World)
      → is_ready (job_data j).status ≡ true
      → Ends (room 0) (handle_impl job room j w)
  unfolding handle_impl handle_loop
  handle_impl-Ends keeps never room j w h = by (round job (room 0) j w) refl
    where
      reports : (r : Round job) → round job (room 0) j w ≡ r → Reports job (room 0) r
      reports r e = subst (Reports job (room 0)) e (round-Reports job keeps (room 0) j w h)

      by : (r : Round job) → round job (room 0) j w ≡ r → Ends (room 0) (handle_impl job room j w)
      by (stop j1 w1) e = rw (e, handle_impl, handle_loop) (inl (reports (stop j1 w1) e))
      by (wait j1 w1) e = rw (e, handle_impl, handle_loop) (reports (wait j1 w1) e)
      by (again j1 w1) e =
          let out = subst (Leaves job) e (round-Leaves job never (room 0) j w) in
          let j2 = set_use_job_info_update job false j1 in
          rw (e, handle_impl, handle_loop)
            (rw (round-NotReady job (room (0 + 1)) j1 w1 out, handle_loop)
              (inr (j1, w1, reports (again j1 w1) e, out, refl, refl)))
