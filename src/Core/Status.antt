-- ===== src/Core/Status.antt =====
-- coreapp/core/data.go: `Status`, its names, and the names read back.
pub mod RoundTrip
use oqtopus_engine.Prelude.{
  String, Bool, true, false, Outcome, ok, err, panic, str_eq, if◌then◌else◌, ◌≡◌, refl,
}
use oqtopus_engine.Core.Fault.{Fault, unknown_status}

pub data Status : Type 0 where
  submitted ready running succeeded failed cancelled : Status

pub Status-discrete : Discrete Status
Status-discrete = hlevel

abbrev pub is_ready : Status → Bool
is_ready ready = true
is_ready _ = false

abbrev pub is_running : Status → Bool
is_running running = true
is_running _ = false

abbrev pub is_succeeded : Status → Bool
is_succeeded succeeded = true
is_succeeded _ = false

abbrev pub is_failed : Status → Bool
is_failed failed = true
is_failed _ = false

-- `Status.String`.
unfoldable pub to_string : Status → String
to_string submitted = "submitted"
to_string ready = "ready"
to_string running = "running"
to_string succeeded = "succeeded"
to_string failed = "failed"
to_string cancelled = "cancelled"

-- `ToStatus`.
unfoldable pub to_status : String → Outcome Fault Status
to_status s =
    if str_eq s "submitted"
    then ok submitted
    else if str_eq s "ready"
    then ok ready
    else if str_eq s "running"
    then ok running
    else if str_eq s "succeeded"
    then ok succeeded
    else if str_eq s "failed"
    then ok failed
    else if str_eq s "cancelled"
    then ok cancelled
    else err (unknown_status s)
