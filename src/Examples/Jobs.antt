-- ===== src/Examples/Jobs.antt =====
-- Jobs in the scheduler.
use oqtopus_engine.Prelude.{
  ℕ, zero, suc, String, Bool, true, false, none, List, [], ◌∷◌, ◌≡◌, ◌≢◌, refl, if◌then◌else◌,
  str_eq, arith,
}
use oqtopus_engine.Prelude.Dict.{lookup, string_eq}
use oqtopus_engine.Core.Status.{Status, ready, running, failed}
use oqtopus_engine.Core.Data.{JobData, clone_data}
use oqtopus_engine.Core.Job.{done, KeepsId, NeverReady, KeepsFlag}
use oqtopus_engine.Jobs.Normal.{Container, normal_job, unknown_job, unknown_step, is_finished}
use oqtopus_engine.Jobs.Run.{IsGateway, Completes, normal_job-Completes}
use oqtopus_engine.Scheduler.Handle.{
  World, after_pre, to_queue, work, after_work, after_post, record_status, set_status,
  send as send_job, round, handle_impl, handle_loop, handle_job, finished, set_use_job_info_update,
  record_own, out_of_fuel,
}
use oqtopus_engine.Scheduler.Handle.Report.{Reports, round-Reports}
use oqtopus_engine.Scheduler.Handle.Rounds.{handle_job_unready, handle_loop_fuel}
use oqtopus_engine.Scheduler.Handle.Ends.{Ends, handle_impl-Ends}
use oqtopus_engine.Scheduler.Handle.History.{handle_job_history}
use oqtopus_engine.Qpu.Gateway.Send.{call_job, send}
use oqtopus_engine.Qpu.Gateway.Send.Laws.{IsFinal, send-IsFinal}
use oqtopus_engine.Examples.Samples.{job_in, idle_world, ideal_gateway, unknown_reply}

abbrev ideal : Container
ideal = record {
  transpile = done;
  send = send true 7 (call_job ideal_gateway unknown_reply 3);
  now = 7;
}

abbrev at_gateway : IsGateway ideal
at_gateway = record {
  gateway = ideal_gateway;
  unknown = unknown_reply;
  connected = true;
  ended = 7;
  elapsed = 3;
  sends = λ jd. refl;
}

normal_job-Completes_example :
    Completes ideal at_gateway
      (handle_impl (normal_job ideal) (λ i. true) (job_in ready) idle_world)
normal_job-Completes_example =
    normal_job-Completes ideal at_gateway (λ i. true) (job_in ready) idle_world refl refl

unknown_keeps_flag : KeepsFlag unknown_job
unfolding unknown_step
unknown_keeps_flag = record { post_flag = λ j. refl }

unknown_never_ready : NeverReady unknown_job
unfolding unknown_step
unknown_never_ready = record { process_ready = λ j h. h; post_ready = λ j h. h }

unknown_keeps_id : KeepsId unknown_job
unfolding unknown_step
unknown_keeps_id = record { pre_id = λ j. refl; process_id = λ j. refl; post_id = λ j. refl }

-- A queue that is full, and then is not.
abbrev full_at_first : ℕ → Bool
full_at_first zero = false
full_at_first (suc i) = true

handle_impl-Ends_example :
    Ends unknown_job false (handle_impl unknown_job full_at_first (job_in ready) idle_world)
handle_impl-Ends_example =
    handle_impl-Ends unknown_job unknown_keeps_flag unknown_never_ready full_at_first (job_in ready)
      idle_world refl

round-Reports_example : Reports unknown_job true (round unknown_job true (job_in ready) idle_world)
round-Reports_example =
    round-Reports unknown_job unknown_keeps_flag true (job_in ready) idle_world refl

handle_job_unready_example :
    (j' : JobData) × (w' : World) × (handle_job unknown_job full_at_first (job_in failed) idle_world
      ≡ finished j' w')
    × (w'.sent ≡ [])
handle_job_unready_example =
    handle_job_unready unknown_job full_at_first (job_in failed) idle_world (λ h. ground arith)

handle_loop_fuel_example :
    (handle_loop unknown_job 3 full_at_first 1 (job_in ready) idle_world ≢ out_of_fuel)
    × (handle_loop unknown_job 3 full_at_first 1 (job_in ready) idle_world
        ≡ handle_loop unknown_job 2 full_at_first 1 (job_in ready) idle_world)
handle_loop_fuel_example =
    handle_loop_fuel unknown_job unknown_never_ready 1 full_at_first 1 (job_in ready) idle_world

send-IsFinal_example :
    IsFinal
      (job_in running)
      (send false 7 (call_job ideal_gateway unknown_reply 3) (job_in running))
send-IsFinal_example = send-IsFinal ideal_gateway unknown_reply false 7 3 (job_in running)

abbrev other_running : List (String × List Status)
other_running = ("job-2", running ∷ []) ∷ []

-- A job of an unknown kind is left RUNNING.
unknown_job_run :
    handle_job unknown_job
      (λ i. true)
      (job_in ready)
      (record { status_history = other_running; sent = [] })
    ≡ finished
        (job_in running)
        (record { status_history = other_running; sent = job_in running ∷ job_in ready ∷ [] })
unfolding handle_job handle_impl handle_loop round after_pre to_queue work after_work after_post
    record_own record_status set_status set_use_job_info_update send_job is_finished unknown_step
    clone_data
unknown_job_run = refl

handle_job_history_example :
    lookup "job-2" other_running
    ≡ (if str_eq "job-1" "job-2" then none else lookup "job-2" other_running)
handle_job_history_example =
    handle_job_history unknown_job unknown_keeps_id (λ i. true) (job_in ready) (job_in running)
      (record { status_history = other_running; sent = [] })
      (record { status_history = other_running; sent = job_in running ∷ job_in ready ∷ [] }) "job-2"
      unknown_job_run
