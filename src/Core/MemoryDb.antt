-- ===== src/Core/MemoryDb.antt =====
-- coreapp/core/db.go: `MemoryDB`, the database that keeps jobs in a map by their ID. A job is stored
-- as its data. The receiving goroutine applies `update` to what comes through the channel.
pub mod Laws
use oqtopus_engine.Prelude.{String, Option, none, some, List, [], ◌∷◌, Outcome, ok, err, panic}
use oqtopus_engine.Prelude.Dict.{Dict, lookup, insert, erase, string_eq}
use oqtopus_engine.Core.Fault.{Fault, not_found}
use oqtopus_engine.Core.Data.{JobData}

pub record MemoryDb : Type 0 where
  pub db_map : Dict String JobData

unfoldable pub setup : MemoryDb
setup = record { db_map = [] }

-- `Insert` and `Update` have the same body.
unfoldable pub insert_job : JobData → MemoryDb → MemoryDb
insert_job j d = record d { db_map = insert j.id j d.db_map }

unfoldable pub update : JobData → MemoryDb → MemoryDb
update j d = record d { db_map = insert j.id j d.db_map }

unfoldable pub get : String → MemoryDb → Outcome Fault JobData
get job_id d = elim (lookup job_id d.db_map) [ none ↦ err (not_found job_id) | some j ↦ ok j ]

unfoldable pub delete : String → MemoryDb → Outcome Fault MemoryDb
delete job_id d = elim (lookup job_id d.db_map) [
  | none ↦ err (not_found job_id)
  | some j ↦ ok (record d { db_map = erase job_id d.db_map })
]

-- The missing job is nil, and its data is read through it.
unfoldable pub update_qasm : String → String → MemoryDb → Outcome Fault MemoryDb
update_qasm job_id qasm_str d = elim (lookup job_id d.db_map) [
  | none ↦ panic
  | some j ↦ ok (record d { db_map = insert job_id (record j { qasm = qasm_str }) d.db_map })
]

-- The goroutine of `Setup` over the jobs received, until the channel is closed.
unfoldable pub receive : List JobData → MemoryDb → MemoryDb
unfolding update
receive [] d = d
receive (j ∷ js) d = receive js (update j d)
