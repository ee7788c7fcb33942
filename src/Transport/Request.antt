-- ===== src/Transport/Request.antt =====
-- `_async_request` (custom_components/hubinet_ops/packages/transport.py), over what the SSH session
-- comes to.
use hubinet_ops_next.Prelude.{Bool, false, not, ◌&&◌, Option, none, some, codes, if◌then◌else◌, ℕ}
use hubinet_ops_next.Prelude.Results.{Result, ok, err}
use hubinet_ops_next.Native.{pos}
use hubinet_ops_next.Transport.{
  Value, object, int, get, is_true, is_positive, has_protocol, Failure, timeout, host_key,
  authentication, connection, unavailable, protocol,
}

-- A session that is complete: whether the helper left with 0, whether it printed anything, and what
-- `json.loads` makes of it, none where it raises.
pub record Completed : Type 0 where
  pub exit_zero : Bool
  pub has_output : Bool
  pub payload : Option Value

pub data Session : Type 0 where
  timed_out host_key_mismatch permission_denied ssh_failed : Session
  completed : Completed → Session

abbrev reports_success : Value → Bool
reports_success (object p) = is_true (get "ok" p)
reports_success _ = false

abbrev checked : Completed → Option Value → Result Failure Value
checked c none = err (protocol (codes "package helper returned a malformed response"))
checked c (some v) =
    if reports_success v && not c.exit_zero
    then err (protocol (codes "package helper reported success with an abnormal exit"))
    else ok v

abbrev session_result : Session → Result Failure Value
session_result timed_out = err timeout
session_result host_key_mismatch = err host_key
session_result permission_denied = err authentication
session_result ssh_failed = err (connection (codes "PVE SSH connection failed"))
session_result (completed c) =
    if not c.exit_zero && not c.has_output
    then err (unavailable (codes "helper is missing or could not be executed"))
    else checked c c.payload

-- `_async_request`, of a request within its bound
unfoldable pub request : Bool → Session → Result Failure Value
request configured s =
    if not configured
    then err (connection (codes "package SSH trust material is not configured"))
    else session_result s

abbrev version_of : Option Value → Option ℕ
version_of (some (int (pos n))) = some n
version_of _ = none

abbrev version_in : Value → Option ℕ
version_in (object p) =
    if has_protocol p && is_positive (get "helper_version" p)
    then version_of (get "helper_version" p)
    else none
version_in _ = none

abbrev payload_version : Option Value → Option ℕ
payload_version none = none
payload_version (some v) = version_in v

-- The version that the request observes, if any.
unfoldable pub observed_version : Session → Option ℕ
observed_version (completed c) =
    if not c.exit_zero && not c.has_output then none else payload_version c.payload
observed_version _ = none
