-- ===== src/Core/Status/RoundTrip.antt =====
-- The names of the statuses are read back.
use oqtopus_engine.Prelude.{String, ok, ◌≡◌, ◌↔◌, refl, arith, eq_iff}
use oqtopus_engine.Core.Status.{
  Status, submitted, ready, running, succeeded, failed, cancelled, to_string, to_status,
}

status-to_string : (s : Status) → to_status (to_string s) ≡ ok s
unfolding to_status to_string
status-to_string submitted = refl
status-to_string ready = refl
status-to_string running = refl
status-to_string succeeded = refl
status-to_string failed = refl
status-to_string cancelled = refl

string-to_status : (t : String) (s : Status) → to_status t ≡ ok s → t ≡ to_string s
unfolding to_status to_string
string-to_status t s h = ground (
  arith,
  eq_iff t "submitted",
  eq_iff t "ready",
  eq_iff t "running",
  eq_iff t "succeeded",
  eq_iff t "failed",
  eq_iff t "cancelled",
)

-- A text is read as a status exactly when it is the name that the status is printed with.
pub to_status-eq-ok : (t : String) (s : Status) → (to_status t ≡ ok s) ↔ (t ≡ to_string s)
to_status-eq-ok t s = (string-to_status t s, λ e. rw e (status-to_string s))
