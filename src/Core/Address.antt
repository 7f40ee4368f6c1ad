-- ===== src/Core/Address.antt =====
-- coreapp/common/util.go: `ValidAddress`.
use Prim.Native.String.{◌++◌}
use oqtopus_engine.Prelude.{
  ℕ, String, Bool, false, ◌&&◌, ◌||◌, ◌^◌, Option, none, some, List, [], ◌∷◌, Outcome, ok, err, leb,
  ltb, ◌==◌, if◌then◌else◌,
}
use oqtopus_engine.Prelude.Text.{codes, all_codes}
use oqtopus_engine.Core.Fault.{
  Fault, invalid_host, invalid_port, port_not_an_int, port_out_of_range,
}
use oqtopus_engine.Core.Mapping.{is_digit, parse_digits}

-- `[0-9a-zA-Z_-]|\.`.
abbrev pub is_host_char : ℕ → Bool
is_host_char c =
    is_digit c
    || (leb b'a' c && leb c b'z')
    || (leb b'A' c && leb c b'Z')
    || (c == b'_')
    || (c == b'-')
    || (c == b'.')

-- The patterns `^(...)+$`.
abbrev pub matches : (ℕ → Bool) → List ℕ → Bool
matches p [] = false
matches p (c ∷ cs) = all_codes p (c ∷ cs)

-- `strconv.Atoi` on digits fails past 63 bits.
unfoldable pub check_port : String → String → Option ℕ → Outcome Fault String
check_port host port none = err (port_not_an_int port)
check_port host port (some n) =
    if leb (2 ^ 63) n
    then err (port_not_an_int port)
    else if ltb 65535 n
    then err (port_out_of_range n)
    else ok (host ++ ":" ++ port)

unfoldable pub valid_address : String → String → Outcome Fault String
unfolding check_port
valid_address host port =
    if matches is_host_char (codes host)
    then (if matches is_digit (codes port)
        then check_port host port (parse_digits 0 (codes port))
        else err (invalid_port port))
    else err (invalid_host host)
