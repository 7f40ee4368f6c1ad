-- ===== src/Scheduler/Handle.antt =====
-- coreapp/scheduler/scheduler.go: `NormalScheduler`. The map of histories and the channel to the
-- database are the state `World`; a job is any type with the interface of `Core.Job`. The receiver of
-- the channel gets a copy of the job, of which its data is kept. `room` says, round by round, whether
-- the queue has a place for the job: a full queue drops it, and then `wg.Wait()` never returns.
pub mod Report
pub mod Rounds
pub mod History
pub mod Ends
pub mod Settled
use oqtopus_engine.Prelude.{
  ℕ, zero, suc, ◌+◌, String, Bool, true, false, Option, none, some, List, [], ◌∷◌, ◌++◌,
  if◌then◌else◌, or_else,
}
use oqtopus_engine.Prelude.Dict.{Dict, lookup, insert, erase, string_eq}
use oqtopus_engine.Core.Status.{Status, ready, running, failed, is_ready}
use oqtopus_engine.Core.Data.{JobData}
use oqtopus_engine.Core.Job.{Run, returned, panicked, JobInterface}

pub record World : Type 0 where
  pub status_history : Dict String (List Status)
  -- what was sent on `DBChan`, the latest first
  pub sent : List JobData

-- `n.statusHistory[jid] = append(n.statusHistory[jid], st)`.
unfoldable pub record_status : String → Status → World → World
record_status jid st w = record w {
  status_history =
      insert jid (or_else (lookup jid w.status_history) [] ++ st ∷ []) w.status_history;
}

module _ {J : Type 0} (job : JobInterface J) where
  open job use {job_data, with_job_data, is_finished, clone, pre_process, process, post_process}

  unfoldable pub set_status : Status → J → J
  set_status st j = with_job_data j (record (job_data j) { status = st })

  unfoldable pub set_use_job_info_update : Bool → J → J
  set_use_job_info_update b j = with_job_data j (record (job_data j) { use_job_info_update = b })

  -- `j.JobContext().DBChan <- j.Clone()`.
  unfoldable pub send : J → World → World
  send j w = record w { sent = job_data (clone j) ∷ w.sent }

  -- The status of the job goes to its history.
  unfoldable pub record_own : J → World → World
  unfolding record_status
  record_own j w = record_status (job_data j).id (job_data j).status w

  -- What `Start` does with a job that it takes from the queue, a panic of `Process` recovered.
  unfoldable pub work : J → World → J × World
  unfolding record_status set_status send
  work j w =
      let j1 = set_status running j in
      let w1 = send j1 (record_status (job_data j).id running w) in
      elim (process j1) [
        | returned j2 ↦ (j2, w1)
        | panicked j2 ↦ let j3 = set_status failed j2 in (j3, send j3 w1)
      ]

  -- How a round of the loop of `handleImpl` ends: it returns, waits for ever, or goes on.
  pub data Round : Type 0 where
    stop : J → World → Round
    wait : J → World → Round
    again : J → World → Round

  -- The deferred function of `handleImpl` after a panic.
  unfoldable pub recover : J → World → Round
  unfolding record_status set_status send
  recover j w =
      let j1 = set_status failed j in stop j1 (send j1 (record_status (job_data j).id failed w))

  -- From the return of `PostProcess` to the end of the round.
  unfoldable pub after_post : J → World → Round
  unfolding record_own send recover
  after_post j w = elim (is_finished j) [
    | none ↦ recover j w
    | some true ↦ stop j (send j (record_own j w))
    | some false ↦ again j w
  ]

  -- From the return of `wg.Wait()` to the call of `PostProcess`.
  unfoldable pub after_work : J → World → Round
  unfolding after_post record_own send set_use_job_info_update recover
  after_work j w =
      let j1 = set_use_job_info_update true j in
      elim (is_finished j1) [
        | none ↦ recover j1 w
        | some true ↦ stop j1 (send j1 (record_own j1 (send j1 w)))
        | some false ↦ elim (post_process j1) [
          | returned j2 ↦ after_post j2 w
          | panicked j2 ↦ recover j2 w
        ]
      ]

  -- The job goes to the queue: with a place for it the worker processes it, and else nobody does.
  unfoldable pub to_queue : Bool → J → World → Round
  unfolding work after_work
  to_queue true j w = let (j1, w1) = work j w in after_work j1 w1
  to_queue false j w = wait j w

  -- From the return of `PreProcess` to the queue.
  unfoldable pub after_pre : Bool → J → World → Round
  unfolding to_queue record_own send set_use_job_info_update recover
  after_pre room j w = elim (is_finished j) [
    | none ↦ recover j w
    | some true ↦
        let j1 = set_use_job_info_update true j in
        elim (is_finished j1) [
          | none ↦ recover j1 (send j1 w)
          | some true ↦ stop j1 (record_own j1 (send j1 w))
          | some false ↦ to_queue room j1 (send j1 w)
        ]
    | some false ↦ to_queue room j (send j w)
  ]

  -- One round of the loop.
  unfoldable pub round : Bool → J → World → Round
  unfolding after_pre record_own set_use_job_info_update recover
  round room j w =
      let j1 = set_use_job_info_update false j in
      let w1 = record_own j1 w in
      if is_ready (job_data j1).status
      then elim (pre_process j1) [
        | returned j2 ↦ after_pre room j2 w1
        | panicked j2 ↦ recover j2 w1
      ]
      else stop j1 w1

  -- How a call ends: it returns, waits for ever, or the fuel ran out.
  pub data Handled : Type 0 where
    finished : J → World → Handled
    waits : J → World → Handled
    out_of_fuel : Handled

  -- The loop of `handleImpl` from the round `i`.
  unfoldable pub handle_loop : ℕ → (ℕ → Bool) → ℕ → J → World → Handled
  unfolding round
  handle_loop zero room i j w = out_of_fuel
  handle_loop (suc n) room i j w = elim (round (room i) j w) [
    | stop j1 w1 ↦ finished j1 w1
    | wait j1 w1 ↦ waits j1 w1
    | again j1 w1 ↦ handle_loop n room (i + 1) j1 w1
  ]

  -- Two rounds are enough for jobs that do not go back to READY (`Handle.Rounds`).
  unfoldable pub handle_impl : (ℕ → Bool) → J → World → Handled
  unfolding handle_loop
  handle_impl room j w = handle_loop 2 room 0 j w

  -- `HandleJob`: at the end the history of the job is deleted.
  unfoldable pub handle_job : (ℕ → Bool) → J → World → Handled
  unfolding handle_impl
  handle_job room j w = elim (handle_impl room j w) [
    | finished j1 w1 ↦
        finished j1 (record w1 { status_history = erase (job_data j1).id w1.status_history })
    | waits j1 w1 ↦ waits j1 w1
    | out_of_fuel ↦ out_of_fuel
  ]
