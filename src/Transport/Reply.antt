-- ===== src/Transport/Reply.antt =====
-- The reply to a request of an update or a cleanup, and how it is validated
-- (custom_components/hubinet_ops/packages/transport.py).
use hubinet_ops_next.Prelude.{
  Bool, true, false, not, ◌||◌, Option, none, some, ◌++◌, Text, codes, text_eq, if◌then◌else◌,
  String,
}
use hubinet_ops_next.Prelude.Results.{Result, ok, err, Answer, returned, raised, unexpected}
use hubinet_ops_next.Models.{UpdateOutcome, UpdateError}
use hubinet_ops_next.Transport.{
  Value, object, array, text, Fields, get, is_true, has_protocol, has_operation, Target,
  target_matches, target_contradicts, valid_target, Failure, timeout, failure_text, fields_of,
  ◌>>=◌, present,
}

-- The operations of these requests.
pub data Operation : Type 0 where
  plan_packages update_packages plan_autoremove autoremove_packages ping : Operation

abbrev pub operation_name : Operation → Text
operation_name plan_packages = codes "plan_packages"
operation_name update_packages = codes "update_packages"
operation_name plan_autoremove = codes "plan_autoremove"
operation_name autoremove_packages = codes "autoremove_packages"
operation_name ping = codes "ping"

-- The value of an outcome that the messages print.
abbrev pub outcome_name : UpdateOutcome → Text
outcome_name UpdateOutcome.package_manager_busy = codes "package_manager_busy"
outcome_name UpdateOutcome.guest_unavailable = codes "guest_unavailable"
outcome_name UpdateOutcome.plan_failed = codes "plan_failed"
outcome_name UpdateOutcome.plan_changed = codes "plan_changed"
outcome_name UpdateOutcome.snapshot_failed = codes "snapshot_failed"
outcome_name UpdateOutcome.mutation_failed = codes "mutation_failed"
outcome_name UpdateOutcome.mutation_timed_out = codes "mutation_timed_out"
outcome_name UpdateOutcome.mutation_uncertain = codes "mutation_uncertain"
outcome_name UpdateOutcome.liveness_failed = codes "liveness_failed"
outcome_name UpdateOutcome.helper_outdated = codes "helper_outdated"
outcome_name UpdateOutcome.success = codes "success"

abbrev pub update_fault : UpdateOutcome → String → UpdateError
update_fault o s = record { outcome = o; message = codes s }

-- The outcome of a failure that the helper does not classify further.
abbrev pub failed_outcome : Operation → Bool → UpdateOutcome
failed_outcome plan_packages timed_out = UpdateOutcome.plan_failed
failed_outcome plan_autoremove timed_out = UpdateOutcome.plan_failed
failed_outcome ping timed_out = UpdateOutcome.liveness_failed
failed_outcome _ true = UpdateOutcome.mutation_timed_out
failed_outcome _ false = UpdateOutcome.mutation_failed

abbrev operation_failed : UpdateOutcome → UpdateError
operation_failed o = record {
  outcome = o;
  message = codes "package operation failed: " ++ outcome_name o;
}

-- A classification that is no text; an array or an object is not hashable, so that the test for
-- membership in a set raises `TypeError`.
abbrev pub hashed : Operation → Value → Answer UpdateError Fields
hashed op array = unexpected
hashed op (object fs) = unexpected
hashed op _ = raised (operation_failed (failed_outcome op false))

abbrev pub classified : Operation → Option Value → Answer UpdateError Fields
classified op none = raised (operation_failed (failed_outcome op false))
classified op (some (text s)) =
    if text_eq s (codes "package_manager_busy")
    then raised (operation_failed UpdateOutcome.package_manager_busy)
    else if text_eq s (codes "guest_unavailable") || text_eq s (codes "identity_mismatch")
    then raised (operation_failed UpdateOutcome.guest_unavailable)
    else raised (operation_failed (failed_outcome op (text_eq s (codes "timeout"))))
classified op (some v) = hashed op v

abbrev pub classification_in : Option Fields → Option Value
classification_in none = none
classification_in (some e) = get "classification" e

-- The outcome of a reply whose evidence is no mapping.
abbrev pub malformed_outcome : Operation → UpdateOutcome
malformed_outcome plan_packages = UpdateOutcome.plan_failed
malformed_outcome plan_autoremove = UpdateOutcome.plan_failed
malformed_outcome ping = UpdateOutcome.liveness_failed
malformed_outcome _ = UpdateOutcome.mutation_uncertain

abbrev wrong_identity : UpdateError
wrong_identity =
    update_fault UpdateOutcome.guest_unavailable
      "package helper returned the wrong node or LXC identity"

-- `_parse_update_response`, of a mapping
unfoldable pub update_evidence : Target → Operation → Fields → Answer UpdateError Fields
unfolding target_matches target_contradicts
update_evidence t op p =
    if not (has_protocol p) || not (has_operation (operation_name op) p)
    then raised (
        update_fault UpdateOutcome.helper_outdated
          "package helper is outdated; run the current bootstrap command again")
    else if is_true (get "ok" p)
    then (if not (target_matches t (get "target" p))
        then raised wrong_identity
        else present
            (update_fault (malformed_outcome op) "package helper returned malformed evidence")
            (fields_of (get "evidence" p)))
    else if target_contradicts t (get "target" p)
    then raised wrong_identity
    else classified op (classification_in (fields_of (get "error" p)))

unfoldable pub parse_update_response : Target → Operation → Value → Answer UpdateError Fields
unfolding update_evidence
parse_update_response t op (object p) = update_evidence t op p
parse_update_response t op _ = raised (
    update_fault UpdateOutcome.helper_outdated
      "package helper is incompatible; run the bootstrap command again")

abbrev pub request_result :
    UpdateOutcome → UpdateOutcome → Result Failure Value → Answer UpdateError Value
request_result late lost (ok v) = returned v
request_result late lost (err timeout) = raised (update_fault late "package operation timed out")
request_result late lost (err f) = raised (record { outcome = lost; message = failure_text f })

-- `_async_update_request`, over what its request comes to
unfoldable pub update_request :
    Target → UpdateOutcome → UpdateOutcome → Result Failure Value → Answer UpdateError Value
unfolding valid_target
update_request t late lost r =
    if not (valid_target t)
    then raised (
        update_fault UpdateOutcome.guest_unavailable
          "Proxmox LXC identity is invalid for package operations")
    else request_result late lost r

-- `_parse_update_response` of the reply to a request.
unfoldable pub replied :
    Target
    → Operation
    → UpdateOutcome
    → UpdateOutcome
    → Result Failure Value
    → Answer UpdateError Fields
unfolding update_request parse_update_response
replied t op late lost r = update_request t late lost r >>= parse_update_response t op
