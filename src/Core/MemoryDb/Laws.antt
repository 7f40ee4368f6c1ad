-- ===== src/Core/MemoryDb/Laws.antt =====
-- The database in memory is a map: what was written last under an ID is what is read.
use oqtopus_engine.Prelude.{
  String, Option, none, some, List, [], ◌∷◌, Outcome, ok, err, panic, if◌then◌else◌, str_eq, arith,
  Option-cases, inl, inr, ◌≡◌, refl,
}
use oqtopus_engine.Prelude.Dict.{lookup, string_eq, lookup-insert, lookup-erase}
use oqtopus_engine.Core.Fault.{Fault, not_found}
use oqtopus_engine.Core.Data.{JobData}
use oqtopus_engine.Core.MemoryDb.{MemoryDb, update, get, delete, receive}

-- Reading after an update gives the job that was written if it has this ID, and else what was there.
pub get-update :
    (j : JobData) (k : String) (d : MemoryDb)
    → get k (update j d) ≡ (if str_eq j.id k then ok j else get k d)
unfolding get update
get-update j k d = ground (arith, lookup-insert j.id k j d.db_map)

-- What a delete of `i` means for a read of `k`, by how it ended.
abbrev pub Deletes : String → String → MemoryDb → Outcome Fault MemoryDb → Type 0
Deletes i k d (ok d') = get k d' ≡ (if str_eq i k then err (not_found k) else get k d)
Deletes i k d (err e) = (get i d ≡ err e) × (e ≡ not_found i)
Deletes i k d panic = ⊥

-- After a delete that succeeds the job is not found and every other job is read as before; a delete
-- fails only for an ID that is not found, and never panics.
pub delete-Deletes : (i k : String) (d : MemoryDb) → Deletes i k d (delete i d)
unfolding delete get
delete-Deletes i k d = elim (Option-cases (lookup i d.db_map)) [
  | inl e ↦ rw (e, delete) (ground arith)
  | inr (j, e) ↦ ground (arith, lookup-erase i k d.db_map)
]

-- The job with this ID that was received last.
pub last_received : String → List JobData → Option JobData
last_received k [] = none
last_received k (j ∷ js) = elim (last_received k js) [
  | some later ↦ some later
  | none ↦ if str_eq j.id k then some j else none
]

abbrev pub or_read : Option JobData → Outcome Fault JobData → Outcome Fault JobData
or_read (some j) r = ok j
or_read none r = r

-- After the receiving goroutine has taken a list of jobs from the channel, an ID reads as the last
-- job received under it, and as before if none was.
pub get-receive :
    (js : List JobData) (k : String) (d : MemoryDb)
    → get k (receive js d) ≡ or_read (last_received k js) (get k d)
unfolding receive last_received
get-receive [] k d = refl
get-receive (j ∷ js) k d = ground (arith, get-receive js k (update j d), get-update j k d)
