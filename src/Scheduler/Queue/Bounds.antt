-- ===== src/Scheduler/Queue/Bounds.antt =====
-- The queue holds at most `maxSize` jobs, and refines a bounded list from which the oldest job goes
-- first.
use oqtopus_engine.Prelude.{
  ℕ, suc, ◌≤◌, String, true, Option, none, some, List, [], ◌∷◌, ◌++◌, leb, if◌then◌else◌, length,
  length-append, ◌≡◌, ◌≢◌, arith, refl, ap, ◌∙◌,
}
use oqtopus_engine.Prelude.Int.{pos}
use oqtopus_engine.Scheduler.Queue.{
  Fifo, NormalQueue, receive, dequeue, Event, arrive, take_one, taken, step, run,
}

module _ {A : Type 0} (f : Fifo A) (id_of : A → String) (m : ℕ) where
  abbrev pub IsBounded : NormalQueue f id_of → Type 0
  IsBounded n = (n.max_size ≡ pos m) × (length (f.items n.fifo) ≤ m)

  receive-IsBounded :
      (a : A) (n : NormalQueue f id_of) → IsBounded n → IsBounded (receive f id_of a n)
  unfolding receive
  receive-IsBounded a n h = by (f.enqueue a n.fifo) refl
    where
      by : (o : Option f.Store) → f.enqueue a n.fifo ≡ o → IsBounded (receive f id_of a n)
      by none e = ground arith
      by (some q) e = ground (
        arith,
        f.get_len_lem n.fifo,
        ap length (f.enqueue_lem e),
        length-append (f.items n.fifo) (a ∷ []),
      )

  taken-IsBounded :
      (n : NormalQueue f id_of) (out : List A)
      → IsBounded n
      → IsBounded (taken f id_of (dequeue f id_of true n) n out).0
  unfolding taken dequeue
  taken-IsBounded n out h = by (f.dequeue n.fifo) refl
    where
      by :
          (o : Option (A × f.Store))
          → f.dequeue n.fifo ≡ o
          → IsBounded (taken f id_of (dequeue f id_of true n) n out).0
      by none e = rw (e, dequeue) h
      by (some (a, q)) e =
          let l : length (f.items n.fifo) ≡ suc (length (f.items q)) =
            ap length (f.dequeue_some e) in
          rw (e, dequeue) (h.0, omega arith)

  step-IsBounded :
      (e : Event f id_of) (n : NormalQueue f id_of) (out : List A)
      → IsBounded n
      → IsBounded (step f id_of e n out).0
  unfolding step
  step-IsBounded (arrive a) n out h = receive-IsBounded a n h
  step-IsBounded take_one n out h = taken-IsBounded n out h

  -- A queue that holds at most `maxSize` jobs goes on to, whatever arrives and is taken.
  pub run-IsBounded :
      (es : List (Event f id_of)) (n : NormalQueue f id_of) (out : List A)
      → IsBounded n
      → IsBounded (run f id_of es n out).0
  unfolding run
  run-IsBounded [] n out h = h
  run-IsBounded (e ∷ es) n out h =
      let (n', out') = step f id_of e n out in run-IsBounded es n' out' (step-IsBounded e n out h)

  -- The specification: a list of at most `m` jobs, whose oldest stands at the head.
  abbrev pub spec_step : Event f id_of → List A → List A → List A × List A
  spec_step (arrive a) xs out = (if leb m (length xs) then xs else xs ++ a ∷ [], out)
  spec_step take_one [] out = ([], out)
  spec_step take_one (x ∷ xs) out = (xs, x ∷ out)

  abbrev pub spec_run : List (Event f id_of) → List A → List A → List A × List A
  spec_run [] xs out = (xs, out)
  spec_run (e ∷ es) xs out = let (xs', out') = spec_step e xs out in spec_run es xs' out'

  abbrev pub view : NormalQueue f id_of × List A → List A × List A
  view (n, out) = (f.items n.fifo, out)

  module _ (reliable : (a : A) (q : f.Store) → f.enqueue a q ≢ none) where
    step-view :
        (e : Event f id_of) (n : NormalQueue f id_of) (out : List A)
        → n.max_size ≡ pos m
        → view (step f id_of e n out) ≡ spec_step e (f.items n.fifo) out
    unfolding step receive dequeue taken
    step-view (arrive a) n out h = by (f.enqueue a n.fifo) refl
      where
        by :
            (o : Option f.Store)
            → f.enqueue a n.fifo ≡ o
            → view (step f id_of (arrive a) n out) ≡ spec_step (arrive a) (f.items n.fifo) out
        by none e = absurd (reliable a n.fifo e)
        by (some q) e = ground (arith, f.get_len_lem n.fifo, f.enqueue_lem e)
    step-view take_one n out h = by (f.dequeue n.fifo) refl
      where
        by :
            (o : Option (A × f.Store))
            → f.dequeue n.fifo ≡ o
            → view (step f id_of take_one n out) ≡ spec_step take_one (f.items n.fifo) out
        by none e = rw (e, dequeue) (rw (f.dequeue_none e))
        by (some (a, q)) e = rw (e, dequeue) (rw (f.dequeue_some e))

    step-max_size :
        (e : Event f id_of) (n : NormalQueue f id_of) (out : List A)
        → (step f id_of e n out).0.max_size ≡ n.max_size
    unfolding step receive dequeue taken
    step-max_size (arrive a) n out = ground arith
    step-max_size take_one n out = by (f.dequeue n.fifo) refl
      where
        by :
            (o : Option (A × f.Store))
            → f.dequeue n.fifo ≡ o
            → (step f id_of take_one n out).0.max_size ≡ n.max_size
        by none e = rw (e, dequeue)
        by (some (a, q)) e = rw (e, dequeue)

    -- If the queue below never fails to take a job, then after any events the jobs that wait and the
    -- jobs that were taken are those of the bounded list, in the same order.
    pub run-view :
        (es : List (Event f id_of)) (n : NormalQueue f id_of) (out : List A)
        → n.max_size ≡ pos m
        → view (run f id_of es n out) ≡ spec_run es (f.items n.fifo) out
    unfolding run
    run-view [] n out h = refl
    run-view (e ∷ es) n out h =
        let (n', out') = step f id_of e n out in
        run-view es n' out' (step-max_size e n out ∙ h)
        ∙ ap (λ (s : List A × List A). spec_run es s.0 s.1) (step-view e n out h)
