-- ===== src/Manager/Scan.antt =====
-- Scan, Review and the cleanup observation of `PackageManager`
-- (custom_components/hubinet_ops/packages/manager.py).
use hubinet_ops_next.Prelude.{
  ℕ, ◌+◌, Bool, true, false, not, ◌&&◌, Option, none, some, List, [], ◌∷◌, String, Text, codes,
  text_eq, if◌then◌else◌, is_empty, take,
}
use hubinet_ops_next.Prelude.Results.{Result, ok, err, Answer, returned, raised, unexpected}
use hubinet_ops_next.Dict.{Key, get, put, pop, member, discard}
use hubinet_ops_next.Models.{
  ScanFailure, ScanStatus, ScanError, UpdateError, ScanRecord, ScanResult, RemovablePackage,
  no_scan, scan_success,
}
use hubinet_ops_next.Manager.State.{
  Ref, Manager, Notice, notify, new_ref, is_own, set_record, dismiss_review, invalidate_cleanup,
  restore_owns, scan_busy, update_busy, cleanup_busy, health_busy,
}

-- `_MAX_ERROR_MESSAGE_LENGTH`
abbrev pub max_error_message_length : ℕ
max_error_message_length = 500

abbrev pub scan_error : ScanFailure → String → ScanError
scan_error f s = record { failure = f; message = codes s }

-- The record of an attempt that runs.
abbrev pub running_scan : ℕ → ScanRecord
running_scan at = record no_scan { status = ScanStatus.running; last_attempt = some at }

-- The writes of `async_start_scan` once its guards have passed.
unfoldable pub accept_scan : Key → ℕ → Manager → Manager
accept_scan k at m =
    let m1 = record m {
      fenced_evidence = discard k m.fenced_evidence;
      viewed_tokens = pop k m.viewed_tokens;
    } in
    let m2 = invalidate_cleanup k (dismiss_review k m1) in
    let m3 = set_record k (running_scan at) m2 in
    record m3 { tasks = put k m3.fresh m3.tasks; fresh = m3.fresh + 1 }

-- `async_start_scan` at the time `at`. The coroutine runs up to its first wait.
unfoldable pub start_scan : Key → Bool → ℕ → Manager → Result ScanError (Ref ScanRecord) × Manager
start_scan k target_is_running at m =
    if not m.configured
    then (
      err (
          scan_error ScanFailure.execution_failed
            "package scan SSH trust material is not configured"),
      m,
    )
    else if not target_is_running
    then (
      err (
          scan_error ScanFailure.guest_unavailable
            "LXC is not present and running in current Proxmox data"),
      m,
    )
    else if restore_owns k.vmid m
    then (
      err (scan_error ScanFailure.package_manager_busy "snapshot Restore owns this LXC VMID"),
      m,
    )
    else if scan_busy k.vmid m
    then (
      err (
          scan_error ScanFailure.package_manager_busy
            "a package scan is already running for this LXC VMID"),
      m,
    )
    else if update_busy k.vmid m
    then (
      err (
          scan_error ScanFailure.package_manager_busy
            "a package update is already running for this LXC VMID"),
      m,
    )
    else if cleanup_busy k.vmid m
    then (
      err (
          scan_error ScanFailure.package_manager_busy
            "package cleanup is already running for this LXC VMID"),
      m,
    )
    else if health_busy k.vmid m
    then (
      err (
          scan_error ScanFailure.package_manager_busy
            "a package health check is already running for this LXC VMID"),
      m,
    )
    else (ok (new_ref (running_scan at) m), accept_scan k at m)

-- `_finish_scan`
unfoldable pub finish_scan : Key → Ref ScanRecord → ScanRecord → Manager → Manager
finish_scan k own outcome m =
    if is_own (get k m.records) own
    then set_record k outcome (record m { tasks = pop k m.tasks })
    else m

-- `_publish_cleanup_observation` at the time `at`; `shown` is whether the presentation returns.
unfoldable pub publish_cleanup :
    Key → Option (List RemovablePackage) → Text → ℕ → Bool → Manager → Manager
publish_cleanup k candidates source at shown m =
    let m1 = record m { cleanup_evidence = pop k m.cleanup_evidence } in
    elim (if member k m.fenced_evidence then none else candidates) [
      | none ↦ notify (Notice.cleanup_observed k none source) m1
      | some [] ↦ notify Notice.state_change (
          notify (Notice.cleanup_observed k (some []) source) (record m1 {
            cleanup_evidence =
                put k (record { candidates = []; observed_at = at }) m1.cleanup_evidence;
          }))
      | some (c ∷ cs) ↦
          let m2 = notify (Notice.cleanup_observed k (some (c ∷ cs)) source) m1 in
          if shown
          then notify Notice.state_change (record m2 {
            cleanup_evidence =
                put k (record { candidates = c ∷ cs; observed_at = at }) m2.cleanup_evidence;
          })
          else notify (Notice.cleanup_observed k none source) m2
    ]

-- The record that `_async_run_scan` builds from the answer of the transport.
unfoldable pub scan_outcome : ℕ → Text → Answer ScanError ScanResult → ScanRecord
scan_outcome at token (returned r) = record no_scan {
  status = ScanStatus.success;
  last_attempt = some at;
  result = some r;
  token = some token;
}
scan_outcome at token (raised e) = record no_scan {
  status = ScanStatus.failed;
  last_attempt = some at;
  failure = some e.failure;
  error_message = some (take max_error_message_length e.message);
}
scan_outcome at token unexpected = record no_scan {
  status = ScanStatus.failed;
  last_attempt = some at;
  failure = some ScanFailure.execution_failed;
  error_message = some (codes "unexpected package scan failure");
}

-- The candidates to publish; every failure of the observation leaves them unknown.
abbrev pub observed_candidates :
    Answer UpdateError (List RemovablePackage) → Option (List RemovablePackage)
observed_candidates (returned ps) = some ps
observed_candidates (raised e) = none
observed_candidates unexpected = none

-- The end of `_async_run_scan`: the scan's answer, then that of the cleanup plan, which is asked
-- for only after a scan that returned.
unfoldable pub complete_scan :
    Key
    → Ref ScanRecord
    → ℕ
    → Text
    → Answer ScanError ScanResult
    → Answer UpdateError (List RemovablePackage)
    → ℕ
    → Bool
    → Manager
    → Manager
complete_scan k own at token scanned cleanup now shown m =
    let outcome = scan_outcome at token scanned in
    finish_scan k own outcome (
      if scan_success outcome.status && is_own (get k m.records) own
      then publish_cleanup k (observed_candidates cleanup) (codes "scan") now shown m
      else m)

-- What Confirm and Review ask of a stored record besides the token.
unfoldable pub has_plan : ScanRecord → Bool
has_plan r =
    scan_success r.status && elim r.result [ none ↦ false | some x ↦ not (is_empty x.packages) ]

abbrev pub token_is : Option Text → Text → Bool
token_is none t = false
token_is (some u) t = text_eq u t

-- `confirm_review`, over the stored record
unfoldable pub confirm_record : Key → Text → Option (Ref ScanRecord) → Manager → Bool × Manager
confirm_record k token none m = (false, m)
confirm_record k token (some r) m =
    if has_plan r.value && token_is r.value.token token
    then (
      true,
      let m1 = set_record k (record r.value { reviewed = true }) m in
          record m1 { viewed_tokens = pop k m1.viewed_tokens },
    )
    else (false, m)

unfoldable pub confirm_review : Key → Text → Manager → Bool × Manager
unfolding confirm_record
confirm_review k token m = confirm_record k token (get k m.records) m

-- `mark_viewed`, over the stored record
unfoldable pub mark_record : Key → Text → Option (Ref ScanRecord) → Manager → Bool × Manager
mark_record k token none m = (false, m)
mark_record k token (some r) m =
    if has_plan r.value && token_is r.value.token token
    then (
      true,
      notify Notice.state_change (record m { viewed_tokens = put k token m.viewed_tokens }),
    )
    else (false, m)

unfoldable pub mark_viewed : Key → Text → Manager → Bool × Manager
unfolding mark_record
mark_viewed k token m = mark_record k token (get k m.records) m

-- `confirm_viewed_review`, over the stored token
unfoldable pub confirm_token : Key → Option Text → Manager → Bool × Manager
confirm_token k none m = (false, m)
confirm_token k (some token) m = confirm_review k token m

unfoldable pub confirm_viewed_review : Key → Manager → Bool × Manager
unfolding confirm_token
confirm_viewed_review k m = confirm_token k (get k m.viewed_tokens) m
