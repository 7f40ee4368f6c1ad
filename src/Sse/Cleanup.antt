-- ===== src/Sse/Cleanup.antt =====
-- What `RunSSE` leaves behind: the container, its volume, and the job's directory.
use oqtopus_engine.Prelude.{
  Bool, true, false, Option, none, some, List, [], ◌∷◌, ◌++◌, ◌≡◌, ◌≢◌, ◌⊎◌, inl, inr, refl, ◌∙◌,
  if◌then◌else◌, ap,
}
use mathlib.Core.List.{append_assoc}
use oqtopus_engine.Core.Fault.{Fault, sse_failed}
use oqtopus_engine.Core.Data.{JobData}
use oqtopus_engine.Sse.Steps.{
  Op, inspect, stop, remove, volume_remove, delete_dir, Environment, Step, ask, and_then,
  stop_container, remove_container,
}
use oqtopus_engine.Sse.Ends.{run_sse-Q}
use oqtopus_engine.Sse.{End, or_return, finish, set_result, run_sse}

-- The requests at the end of a run without an error.
abbrev pub farewell : List Op
farewell = inspect ∷ stop ∷ inspect ∷ remove ∷ volume_remove ∷ delete_dir ∷ []

-- The requests after a failure, which are made whatever is answered.
abbrev pub aftermath : List Op
aftermath = inspect ∷ stop ∷ remove ∷ volume_remove ∷ delete_dir ∷ []

-- The log of the run is some requests and then these.
abbrev pub EndsWith : List Op → List Op → Type 0
EndsWith last log = (before : List Op) × (log ≡ before ++ last)

-- The last requests of a run whose end broke off: a container or a volume may stay behind.
pub data BrokenOff : List Op → Type 0 where
  at_inspect : BrokenOff (inspect ∷ [])
  at_stop : BrokenOff (inspect ∷ stop ∷ [])
  at_second_inspect : BrokenOff (inspect ∷ stop ∷ inspect ∷ [])
  at_remove : BrokenOff (inspect ∷ stop ∷ inspect ∷ remove ∷ [])
  at_volume : BrokenOff (inspect ∷ stop ∷ inspect ∷ remove ∷ volume_remove ∷ [])

more :
    (last log : List Op) (op : Op) → EndsWith last log → EndsWith (last ++ op ∷ []) (log ++ op ∷ [])
more last log op (before, h) =
    (before, ap (λ (l : List Op). l ++ op ∷ []) h ∙ append_assoc before last (op ∷ []))

module _ (e : Environment) where
  -- How a run can end.
  abbrev pub IsCleanedUp : End e → Type 0
  IsCleanedUp r =
      EndsWith farewell r.requests
      ⊎ (((r.error ≢ none) × EndsWith aftermath r.requests)
          ⊎ ((last : List Op) × BrokenOff last × (r.error ≢ none) × EndsWith last r.requests))

  -- The end of a run from one of its requests on.
  module _ (jd : JobData) (o : Option Fault) where
    abbrev closing : List Op → End e
    closing log = record { job = jd; error = o; requests = log }

    deleted :
        (x : Option Fault) (log : List Op)
        → EndsWith farewell log
        → IsCleanedUp (or_return e jd (x, log) closing)
    deleted none log h = inl h
    deleted (some f) log h = inl h

    -- A request that breaks the end off, or the next one.
    broken :
        (x : Option Fault) (last log : List Op) (next : List Op → End e)
        → BrokenOff last
        → EndsWith last log
        → IsCleanedUp (next log)
        → IsCleanedUp (or_return e jd (x, log) next)
    broken none last log next b h k = k
    broken (some f) last log next b h k = inr (inr (last, b, (λ q. cc), h))

    -- Two steps in a row that break the end off.
    broken_twice :
        (x : Option Fault) (last log : List Op) (second : List Op → Step) (next : List Op → End e)
        → BrokenOff last
        → EndsWith last log
        → IsCleanedUp (or_return e jd (second log) next)
        → IsCleanedUp (or_return e jd (and_then e (x, log) second) next)
    broken_twice none last log second next b h k = k
    broken_twice (some f) last log second next b h k = inr (inr (last, b, (λ q. cc), h))

    abbrev delete_directory : List Op → End e
    delete_directory log =
        or_return e jd (ask e delete_dir "failed to delete tmp directory" log) closing

    removed :
        (b : Bool) (log : List Op)
        → EndsWith (inspect ∷ stop ∷ inspect ∷ []) log
        → IsCleanedUp (
            or_return e jd
              (if b
                then and_then e
                    (ask e remove "failed to remove container" log)
                    (ask e volume_remove "failed to remove volume")
                else (some (sse_failed "failed to remove container"), log))
              delete_directory)
    unfolding ask
    removed false log h = inr (inr (inspect ∷ stop ∷ inspect ∷ [], at_second_inspect, (λ q. cc), h))
    removed true log h =
        let h4 = more (inspect ∷ stop ∷ inspect ∷ []) log remove h in
        let h5 =
          more (inspect ∷ stop ∷ inspect ∷ remove ∷ []) (log ++ remove ∷ []) volume_remove h4 in
        let h6 =
          more (inspect ∷ stop ∷ inspect ∷ remove ∷ volume_remove ∷ [])
            ((log ++ remove ∷ []) ++ volume_remove ∷ []) delete_dir h5 in
        broken_twice (ask e remove "failed to remove container" log).0
          (inspect ∷ stop ∷ inspect ∷ remove ∷ []) (log ++ remove ∷ [])
          (ask e volume_remove "failed to remove volume") delete_directory at_remove h4
          (broken (ask e volume_remove "failed to remove volume" (log ++ remove ∷ [])).0
            (inspect ∷ stop ∷ inspect ∷ remove ∷ volume_remove ∷ [])
            ((log ++ remove ∷ []) ++ volume_remove ∷ []) delete_directory at_volume h5
            (deleted
              (ask e delete_dir "failed to delete tmp directory"
                ((log ++ remove ∷ []) ++ volume_remove ∷ [])).0
              (((log ++ remove ∷ []) ++ volume_remove ∷ []) ++ delete_dir ∷ []) h6))

    abbrev removing : List Op → Step
    removing log =
        if e.is_exited
        then and_then e (ask e remove "failed to remove container" log)
            (ask e volume_remove "failed to remove volume")
        else (some (sse_failed "failed to remove container"), log)

    stopped :
        (log : List Op)
        → EndsWith (inspect ∷ stop ∷ []) log
        → IsCleanedUp (or_return e jd (remove_container e log) delete_directory)
    unfolding remove_container ask
    stopped log h =
        let h3 = more (inspect ∷ stop ∷ []) log inspect h in
        broken_twice (ask e inspect "failed to remove container" log).0
          (inspect ∷ stop ∷ inspect ∷ []) (log ++ inspect ∷ []) removing delete_directory
          at_second_inspect h3 (removed e.is_exited (log ++ inspect ∷ []) h3)

    finish-IsCleanedUp : (log : List Op) → IsCleanedUp (finish e jd o log)
    unfolding finish stop_container ask
    finish-IsCleanedUp log =
        let h1 : EndsWith (inspect ∷ []) (log ++ inspect ∷ []) = (log, refl) in
        let h2 = more (inspect ∷ []) (log ++ inspect ∷ []) stop h1 in
        let next : List Op → End e = λ l. or_return e jd (remove_container e l) delete_directory in
        broken_twice (ask e inspect "failed to stop container" log).0 (inspect ∷ [])
          (log ++ inspect ∷ []) (ask e stop "failed to stop container") next at_inspect h1
          (broken (ask e stop "failed to stop container" (log ++ inspect ∷ [])).0
            (inspect ∷ stop ∷ []) ((log ++ inspect ∷ []) ++ stop ∷ []) next at_stop h2
            (stopped ((log ++ inspect ∷ []) ++ stop ∷ []) h2))

  -- A run that asks Docker for nothing.
  abbrev pub FailsEarly : End e → Type 0
  FailsEarly r = (r.error ≢ none) × (r.requests ≡ delete_dir ∷ [])

  -- `RunSSE` ends in one of four ways. It fails before it asks Docker for anything, and then it only deletes the
  -- directory of the job. It fails, and its last requests are to inspect, stop and remove the container and to remove
  -- the volume and the directory. It comes to its regular end, whose last requests are to inspect and stop the
  -- container, to inspect and remove it, and to remove the volume and the directory. Or it fails at one of the
  -- requests of the regular end before the last, and that request is the last one.
  pub run_sse-IsCleanedUp : (jd : JobData) → FailsEarly (run_sse e jd) ⊎ IsCleanedUp (run_sse e jd)
  run_sse-IsCleanedUp jd =
      run_sse-Q e (λ r. FailsEarly r ⊎ IsCleanedUp r)
        (λ jd1 f log. inr (inr (inl ((λ q. cc), (log, refl))))) jd
        (λ _ o log. inr (finish-IsCleanedUp (set_result e jd).0 o log)) (λ f. inl ((λ q. cc), refl))
