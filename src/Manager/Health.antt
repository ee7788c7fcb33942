-- ===== src/Manager/Health.antt =====
-- Health checks of `PackageManager` (custom_components/hubinet_ops/packages/manager.py).
use hubinet_ops_next.Prelude.{ℕ, ◌+◌, Bool, not, Option, none, some, if◌then◌else◌}
use hubinet_ops_next.Prelude.Results.{Result, ok, err, Answer, returned, raised, unexpected}
use hubinet_ops_next.Dict.{Key, get, put, pop}
use hubinet_ops_next.Models.{
  ScanFailure, ScanError, HealthReason, HealthSource, HealthError, HealthEvidence, HealthOutcome,
  HealthRecord, CheckStatus, DpkgState,
}
use hubinet_ops_next.Manager.State.{
  Ref, Manager, Notice, notify, new_ref, is_own, health_claim, claim_health_record, restore_owns,
  package_busy, health_claim_blocked,
}
use hubinet_ops_next.Manager.Scan.{scan_error}

-- What creating the background task does: it raises, the coroutine waits for the transport, or the
-- coroutine runs to its end at once, at some time.
pub data Launch : Type 0 where
  refused : Launch
  suspended : Launch
  completed : HealthOutcome → ℕ → Launch

-- `evidence.field if evidence is not None else None`, for each field.
abbrev evidence_guest_exec : Option HealthEvidence → Option Bool
evidence_guest_exec none = none
evidence_guest_exec (some e) = some e.guest_exec

abbrev evidence_dpkg : Option HealthEvidence → Option DpkgState
evidence_dpkg none = none
evidence_dpkg (some e) = e.dpkg

abbrev evidence_unfinished : Option HealthEvidence → Option ℕ
evidence_unfinished none = none
evidence_unfinished (some e) = e.unfinished_package_count

abbrev evidence_reboot : Option HealthEvidence → Option Bool
evidence_reboot none = none
evidence_reboot (some e) = e.reboot_required

-- The record that `_finish_health` stores.
abbrev pub completed_health : Option HealthSource → HealthOutcome → ℕ → HealthRecord
completed_health source o at = record {
  check_status = CheckStatus.completed;
  state = o.state;
  reason = o.reason;
  source = source;
  checked_at = some at;
  guest_exec = evidence_guest_exec o.evidence;
  dpkg = evidence_dpkg o.evidence;
  unfinished_package_count = evidence_unfinished o.evidence;
  reboot_required = evidence_reboot o.evidence;
}

-- `_finish_health`
unfoldable pub finish_health : Key → Ref HealthRecord → HealthOutcome → ℕ → Manager → Manager
finish_health k own o at m =
    if is_own (get k m.health_records) own
    then notify Notice.state_change (record m {
      health_tasks = pop k m.health_tasks;
      health_records = put k (new_ref (completed_health own.value.source o at) m) m.health_records;
      fresh = m.fresh + 1;
    })
    else m

-- The outcome that `_async_run_health` makes of the transport's answer.
unfoldable pub health_outcome : Answer HealthError HealthOutcome → HealthOutcome
health_outcome (returned o) = o
health_outcome (raised e) = record { state = none; reason = some e.reason; evidence = none }
health_outcome unexpected = record {
  state = none;
  reason = some HealthReason.malformed_evidence;
  evidence = none;
}

-- `_async_run_health` after its wait
unfoldable pub complete_health :
    Key → Ref HealthRecord → Answer HealthError HealthOutcome → ℕ → Manager → Manager
complete_health k own a at m = finish_health k own (health_outcome a) at m

-- The claim is withdrawn where the task could not be created.
unfoldable pub withdraw_claim : Key → Ref HealthRecord → Manager → Manager
withdraw_claim k own m =
    if is_own (get k m.health_records) own
    then notify Notice.state_change (record m { health_records = pop k m.health_records })
    else m

-- `_start_health_background_task`, and the storing of a task that is not done.
unfoldable pub launch_health : Key → Ref HealthRecord → Launch → Manager → Manager
launch_health k own refused m = withdraw_claim k own m
launch_health k own suspended m = record m {
  health_tasks = put k m.fresh m.health_tasks;
  fresh = m.fresh + 1;
}
launch_health k own (completed o at) m = finish_health k own o at m

-- `async_start_health`; where the task cannot be created it raises after its claim is withdrawn.
unfoldable pub start_health :
    Key → Bool → Launch → Manager → Result ScanError (Ref HealthRecord) × Manager
start_health k target_is_running launch m =
    if not m.configured
    then (err (scan_error ScanFailure.execution_failed "package transport is not configured"), m)
    else if not target_is_running
    then (
      err (
          scan_error ScanFailure.guest_unavailable
            "LXC is not present and running in current Proxmox data"),
      m,
    )
    else if restore_owns k.vmid m
    then (
      err (scan_error ScanFailure.package_manager_busy "snapshot Restore owns this LXC VMID"),
      m,
    )
    else if package_busy k.vmid m
    then (
      err (
          scan_error ScanFailure.package_manager_busy
            "a package scan, update, cleanup, or health check is already active for this LXC VMID"),
      m,
    )
    else let own = new_ref (health_claim HealthSource.manual) m in
      let m1 = launch_health k own launch (claim_health_record k HealthSource.manual m) in
      (
        elim launch [
          | refused ↦ err (
              scan_error ScanFailure.execution_failed
                "could not start the health check background task")
          | suspended ↦ ok own
          | completed o at ↦ ok own
        ],
        m1,
      )

-- `_try_claim_health_before_publish`
unfoldable pub try_claim_health : Key → HealthSource → Manager → Option (Ref HealthRecord) × Manager
try_claim_health k source m =
    if health_claim_blocked k.vmid m
    then (none, m)
    else (some (new_ref (health_claim source) m), claim_health_record k source m)

-- `_start_claimed_health_task`, for a claim that was made
unfoldable pub start_claimed_health : Key → Option (Ref HealthRecord) → Launch → Manager → Manager
start_claimed_health k none launch m = m
start_claimed_health k (some own) launch m =
    if is_own (get k m.health_records) own then launch_health k own launch m else m
