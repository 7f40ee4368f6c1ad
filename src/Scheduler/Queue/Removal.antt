-- ===== src/Scheduler/Queue/Removal.antt =====
-- Deleting a job by its ID takes the first job with this ID out of the queue.
use oqtopus_engine.Prelude.{
  ℕ, zero, suc, ◌+◌, ◌<◌, String, Bool, true, false, Option, none, some, List, [], ◌∷◌, ◌++◌,
  Outcome, ok, err, panic, if◌then◌else◌, length, length-append, get_elem?, str_eq, ◌≡◌, arith,
  refl, ◌∙◌,
}
use native.Mathlib.Nat.{zero-add}
use mathlib.Core.Option as Opt
use mathlib.Core.List.{append_assoc}
use oqtopus_engine.Core.Fault.{Fault, no_entry}
use oqtopus_engine.Scheduler.Queue.{Fifo, remove_at, NormalQueue, get_idx_from, get_idx, delete}

module _ {A : Type 0} (id_of : A → String) where
  -- Whether a job with this ID stands in the list.
  abbrev pub has_id : String → List A → Bool
  has_id i [] = false
  has_id i (x ∷ xs) = if str_eq (id_of x) i then true else has_id i xs

  -- The list without the first job with this ID.
  abbrev pub erase_id : String → List A → List A
  erase_id i [] = []
  erase_id i (x ∷ xs) = if str_eq (id_of x) i then xs else x ∷ erase_id i xs

  -- The index of the first job with this ID.
  abbrev pub index_of : String → List A → Option ℕ
  index_of i [] = none
  index_of i (x ∷ xs) = if str_eq (id_of x) i then some 0 else Opt.map suc (index_of i xs)

  index_of-has_id : (i : String) (xs : List A) → index_of i xs ≡ none → has_id i xs ≡ false
  index_of-has_id i [] h = refl
  index_of-has_id i (x ∷ xs) h = ground (arith, index_of-has_id i xs)

  -- The index lies in the list, the ID is there, and the job at the index is the one to erase.
  index_of-some :
      (i : String) (xs : List A) (k : ℕ)
      → index_of i xs ≡ some k
      → (k < length xs) × (has_id i xs ≡ true) × (remove_at k xs ≡ erase_id i xs)
  index_of-some i [] k h = cc
  index_of-some i (x ∷ xs) zero h = ground arith
  index_of-some i (x ∷ xs) (suc k) h = ground (arith, index_of-some i xs k)

get_elem?-middle {ℓ} :
    {A : Type ℓ} (xs : List A) (x : A) (ys : List A) → get_elem? (xs ++ x ∷ ys) (length xs) ≡ some x
get_elem?-middle [] x ys = refl
get_elem?-middle (z ∷ xs) x ys = get_elem?-middle xs x ys

module _ {A : Type 0} (f : Fifo A) (id_of : A → String) where
  abbrev from_index : ℕ → Option ℕ → Outcome Fault ℕ
  from_index i none = err no_entry
  from_index i (some k) = ok (i + k)

  get_idx_from-index_of :
      (ys xs : List A) (i : ℕ) (job_id : String) (q : f.Store)
      → f.items q ≡ xs ++ ys
      → i ≡ length xs
      → get_idx_from f id_of (length ys) i job_id q ≡ from_index i (index_of id_of job_id ys)
  unfolding get_idx_from
  get_idx_from-index_of [] xs i job_id q e l = refl
  get_idx_from-index_of (y ∷ ys) xs i job_id q e l =
      let g : f.get i q ≡ some y = f.get_lem i q ∙ rw (e, l) (get_elem?-middle xs y ys) in
      let rest =
        get_idx_from-index_of ys (xs ++ y ∷ []) (i + 1) job_id q (rw (append_assoc) e)
          (omega (arith, length-append xs (y ∷ []))) in
      rw (g, get_idx_from) (ground (arith, rest))

  -- What a delete of the ID `i` does, by whether a job with this ID waits.
  abbrev pub Removes : String → NormalQueue f id_of → Outcome Fault (NormalQueue f id_of) → Type 0
  Removes i n (ok n') =
      (has_id id_of i (f.items n.fifo) ≡ true)
      × (f.items n'.fifo ≡ erase_id id_of i (f.items n.fifo))
      × (n'.max_size ≡ n.max_size)
  Removes i n (err e) = (has_id id_of i (f.items n.fifo) ≡ false) × (e ≡ no_entry)
  Removes i n panic = ⊥

  -- A delete succeeds exactly if a job with this ID waits; then the first such job is gone, and the
  -- other jobs wait in the same order. Otherwise the error is that there is no entry.
  pub delete-Removes : (i : String) (n : NormalQueue f id_of) → Removes i n (delete f id_of i n)
  unfolding delete get_idx
  delete-Removes i n = by (index_of id_of i (f.items n.fifo)) refl
    where
      xs : List A
      xs = f.items n.fifo

      idx : get_idx f id_of i n ≡ from_index 0 (index_of id_of i xs)
      idx = rw (f.get_len_lem n.fifo) (get_idx_from-index_of xs [] 0 i n.fifo refl refl)

      removed :
          (k : ℕ) (o : Option f.Store)
          → f.remove k n.fifo ≡ o
          → index_of id_of i xs ≡ some k
          → Removes i n (delete f id_of i n)
      removed k none e h =
          let (lt, _, _) = index_of-some id_of i xs k h in absurd (f.remove_in_range k n.fifo lt e)
      removed k (some q) e h =
          let (_, found, same) = index_of-some id_of i xs k h in
          let j : get_idx f id_of i n ≡ ok k = idx ∙ rw h (rw zero-add) in
          rw (j, delete) (rw (e, delete) (found, f.remove_lem e ∙ same, refl))

      by : (o : Option ℕ) → index_of id_of i xs ≡ o → Removes i n (delete f id_of i n)
      by none h =
          let j : get_idx f id_of i n ≡ err no_entry = idx ∙ rw h in
          rw (j, delete) (index_of-has_id id_of i xs h, refl)
      by (some k) h = removed k (f.remove k n.fifo) refl h
