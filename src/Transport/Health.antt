-- ===== src/Transport/Health.antt =====
-- The Health request (custom_components/hubinet_ops/packages/transport.py).
use hubinet_ops_next.Prelude.{
  ℕ, Bool, true, false, not, ◌&&◌, ◌||◌, Option, none, some, List, [], ◌∷◌, ◌++◌, Text, codes,
  text_eq, if◌then◌else◌, String, leb, is_some, is_none, all, any,
}
use hubinet_ops_next.Prelude.Results.{Result, ok, err, Answer, returned, raised}
use hubinet_ops_next.Models.{DpkgState, HealthReason, HealthError, HealthEvidence, HealthOutcome}
use hubinet_ops_next.Models.Health.{classify_health}
use hubinet_ops_next.Native.{pos}
use hubinet_ops_next.Transport.{
  Value, null, bool, int, text, object, Fields, empty, field, lookup, get, is_true, has_protocol,
  has_operation, Target, target_matches, target_contradicts, valid_target, Failure, timeout,
  host_key, authentication, connection, unavailable, protocol, fields_of, ◌>>=◌, ◌>>◌, refuse_if,
  present,
}

abbrev fault : HealthReason → String → HealthError
fault r s = record { reason = r; message = codes s }

abbrev malformed : HealthError
malformed =
    fault HealthReason.malformed_evidence "package helper returned malformed Health evidence"

abbrev contradictory : HealthError
contradictory =
    fault HealthReason.malformed_evidence "package helper returned contradictory Health evidence"

abbrev wrong_identity : HealthError
wrong_identity =
    fault HealthReason.guest_unavailable "package helper returned the wrong node or LXC identity"

-- `_HEALTH_FAILURE_REASONS`, with the default
unfoldable pub failure_reason : Option Value → HealthReason × Text
failure_reason (some (text s)) =
    if text_eq s (codes "guest_unavailable") || text_eq s (codes "identity_mismatch")
    then (HealthReason.guest_unavailable, codes "guest_unavailable")
    else if text_eq s (codes "timeout")
    then (HealthReason.timeout, s)
    else if text_eq s (codes "package_manager_busy")
    then (HealthReason.package_manager_busy, s)
    else if text_eq s (codes "unsupported_guest")
    then (HealthReason.unsupported_guest, s)
    else (HealthReason.malformed_evidence, codes "malformed_evidence")
failure_reason _ = (HealthReason.malformed_evidence, codes "malformed_evidence")

abbrev check_failed : HealthReason × Text → HealthError
check_failed (r, word) = record { reason = r; message = codes "Health check failed: " ++ word }

abbrev classification_in : Option Fields → Option Value
classification_in none = none
classification_in (some e) = get "classification" e

-- `_HEALTH_EVIDENCE_KEYS`
abbrev evidence_keys : List Text
evidence_keys =
    codes "guest_exec"
    ∷ codes "guest_exec_unavailable"
    ∷ codes "dpkg"
    ∷ codes "unfinished_package_count"
    ∷ codes "reboot_required"
    ∷ []

abbrev keys : Fields → List Text
keys empty = []
keys (field k v fs) = k ∷ keys fs

-- `set(evidence) == _HEALTH_EVIDENCE_KEYS`
unfoldable pub has_exact_keys : Fields → Bool
has_exact_keys e =
    all (λ k. any (text_eq k) (keys e)) evidence_keys
    && all (λ k. any (text_eq k) evidence_keys) (keys e)

-- The envelope of `_parse_health_response`, and its evidence.
unfoldable pub health_fields : Target → Fields → Answer HealthError Fields
unfolding target_matches target_contradicts failure_reason has_exact_keys
health_fields t p =
    if not (has_protocol p)
    then raised (fault HealthReason.protocol_mismatch "package helper protocol is incompatible")
    else if not (has_operation (codes "check_health") p)
    then raised (
        fault HealthReason.helper_outdated
          "package helper is outdated; run the current bootstrap command again")
    else if is_true (get "ok" p)
    then (if not (target_matches t (get "target" p)) then raised wrong_identity else (do
      e ← present malformed (fields_of (get "evidence" p))
      refuse_if (not (has_exact_keys e)) malformed
      returned e))
    else if target_contradicts t (get "target" p)
    then raised wrong_identity
    else raised (check_failed (failure_reason (classification_in (fields_of (get "error" p)))))

abbrev bool_of : Option Value → Answer HealthError Bool
bool_of (some (bool b)) = returned b
bool_of _ = raised malformed

-- `HealthDpkgState(word)`
unfoldable pub dpkg_state : Text → Option DpkgState
dpkg_state s =
    if text_eq s (codes "ok")
    then some DpkgState.ok
    else if text_eq s (codes "interrupted")
    then some DpkgState.interrupted
    else if text_eq s (codes "pending")
    then some DpkgState.pending
    else if text_eq s (codes "busy")
    then some DpkgState.busy
    else if text_eq s (codes "lock_unknown")
    then some DpkgState.lock_unknown
    else if text_eq s (codes "changed")
    then some DpkgState.changed
    else none

abbrev known : Option DpkgState → Answer HealthError (Option DpkgState)
known none =
    raised (fault HealthReason.malformed_evidence "package helper returned an unknown dpkg state")
known (some d) = returned (some d)

abbrev dpkg_of : Option Value → Answer HealthError (Option DpkgState)
dpkg_of (some null) = returned none
dpkg_of (some (text s)) = known (dpkg_state s)
dpkg_of _ = known none

abbrev count_of : Option Value → Answer HealthError (Option ℕ)
count_of (some null) = returned none
count_of (some (int (pos n))) = returned (some n)
count_of _ = raised malformed

abbrev reboot_of : Option Value → Answer HealthError (Option Bool)
reboot_of (some null) = returned none
reboot_of (some (bool true)) = returned (some true)
reboot_of _ = raised malformed

abbrev is_interrupted : Option DpkgState → Bool
is_interrupted (some DpkgState.interrupted) = true
is_interrupted _ = false

abbrev has_count : Option ℕ → Bool
has_count none = false
has_count (some n) = leb 1 n

-- The combinations that the evidence cannot have.
unfoldable pub contradicts : HealthEvidence → Bool
contradicts e =
    (if e.guest_exec
      then e.guest_exec_unavailable || is_none e.dpkg
      else is_some e.dpkg || (is_some e.unfinished_package_count || is_some e.reboot_required))
    || (if is_interrupted e.dpkg
        then not (has_count e.unfinished_package_count)
        else is_some e.unfinished_package_count)

-- The values of the evidence, in the order in which they are refused.
unfoldable pub health_evidence : Fields → Answer HealthError HealthEvidence
unfolding lookup dpkg_state contradicts
health_evidence e = do
  exec ← bool_of (get "guest_exec" e)
  exec_unavailable ← bool_of (get "guest_exec_unavailable" e)
  dpkg ← dpkg_of (get "dpkg" e)
  count ← count_of (get "unfinished_package_count" e)
  reboot ← reboot_of (get "reboot_required" e)
  let evidence : HealthEvidence = record {
    guest_exec = exec;
    guest_exec_unavailable = exec_unavailable;
    dpkg = dpkg;
    unfinished_package_count = count;
    reboot_required = reboot;
  }
  refuse_if (contradicts evidence) contradictory
  returned evidence

-- `_parse_health_response`
unfoldable pub parse_health_response : Target → Value → Answer HealthError HealthEvidence
unfolding health_fields health_evidence
parse_health_response t (object p) = health_fields t p >>= health_evidence
parse_health_response t _ =
    raised (fault HealthReason.protocol_mismatch "package helper returned a non-protocol response")

abbrev requested : Result Failure Value → Answer HealthError Value
requested (ok v) = returned v
requested (err timeout) = raised (fault HealthReason.timeout "Health check timed out")
requested (err host_key) =
    raised (fault HealthReason.transport_failed "Health check SSH host key did not match")
requested (err authentication) =
    raised (fault HealthReason.transport_failed "Health check SSH authentication failed")
requested (err (connection s)) =
    raised (record { reason = HealthReason.transport_failed; message = s })
requested (err (unavailable s)) =
    raised (record { reason = HealthReason.helper_outdated; message = s })
requested (err (protocol s)) =
    raised (record { reason = HealthReason.protocol_mismatch; message = s })

-- `async_check_health`, over what its request comes to
unfoldable pub async_check_health : Target → Result Failure Value → Answer HealthError HealthOutcome
unfolding valid_target parse_health_response classify_health
async_check_health t r = do
  refuse_if (not (valid_target t))
      (fault HealthReason.guest_unavailable "Proxmox LXC identity is invalid for a Health check")
  v ← requested r
  e ← parse_health_response t v
  returned (classify_health e)
