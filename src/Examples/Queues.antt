-- ===== src/Examples/Queues.antt =====
-- The queue of the scheduler over a list.
use oqtopus_engine.Prelude.{String, none, List, [], ◌∷◌, ◌≡◌, refl, arith, ◌≢◌}
use oqtopus_engine.Prelude.Int.{pos}
use oqtopus_engine.Scheduler.Queue.{Fifo, NormalQueue, Event, arrive, take_one, run, delete}
use oqtopus_engine.Scheduler.Queue.Bounds.{IsBounded, run-IsBounded, spec_run, view, run-view}
use oqtopus_engine.Scheduler.Queue.Removal.{Removes, delete-Removes}
use oqtopus_engine.Examples.Samples.{list_fifo, push}

-- The jobs are their IDs.
abbrev strings : Fifo String
strings = list_fifo String

abbrev own_id : String → String
own_id s = s

abbrev queue_of : List String → NormalQueue strings own_id
queue_of items = record { fifo = items; max_size = pos 2; refill_threshold = pos 1 }

-- Three jobs arrive at a queue for two, and one is taken.
abbrev events : List (Event strings own_id)
events = arrive "a" ∷ arrive "b" ∷ arrive "c" ∷ take_one ∷ []

run-IsBounded_example : IsBounded strings own_id 2 (run strings own_id events (queue_of []) []).0
run-IsBounded_example = run-IsBounded strings own_id 2 events (queue_of []) [] (refl, ground arith)

delete-Removes_example :
    Removes strings own_id "b"
      (queue_of ("a" ∷ "b" ∷ []))
      (delete strings own_id "b" (queue_of ("a" ∷ "b" ∷ [])))
delete-Removes_example = delete-Removes strings own_id "b" (queue_of ("a" ∷ "b" ∷ []))

push_reliable : (a : String) (q : List String) → push a q ≢ none
push_reliable a q h = cc

run-view_example :
    view strings own_id 2 (run strings own_id events (queue_of []) [])
    ≡ spec_run strings own_id 2 events [] []
run-view_example = run-view strings own_id 2 push_reliable events (queue_of []) [] refl

-- The third job was dropped.
run_test : spec_run strings own_id 2 events [] [] ≡ ("b" ∷ [], "a" ∷ [])
run_test = refl
