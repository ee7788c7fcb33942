-- ===== src/Manager/Update.antt =====
-- Update and Autoremove of `PackageManager`: how an attempt is accepted and how its outcome is
-- published (custom_components/hubinet_ops/packages/manager.py).
use hubinet_ops_next.Prelude.{
  ℕ, ◌+◌, Bool, true, false, not, ◌&&◌, ◌||◌, Option, none, some, List, [], ◌∷◌, String, Text,
  codes, if◌then◌else◌, is_some, is_empty,
}
use hubinet_ops_next.Prelude.Results.{Result, ok, err}
use hubinet_ops_next.Dict.{Key, get, put, pop}
use hubinet_ops_next.Models.{
  UpdateOutcome, UpdateStatus, UpdateError, UpdateRecord, ScanRecord, PendingPackage,
  RemovablePackage, CleanupEvidence, HealthSource, HealthRecord, no_scan, no_update, update_success,
}
use hubinet_ops_next.Manager.State.{
  Ref, Manager, Notice, notify, new_ref, is_own, set_record, set_update_record, set_cleanup_record,
  dismiss_review, invalidate_cleanup, invalidate_health, restore_owns, package_busy,
}
use hubinet_ops_next.Manager.Scan.{has_plan}
use hubinet_ops_next.Manager.Health.{Launch, try_claim_health, start_claimed_health}

-- The fields by which two package plans are compared.
pub record PlanRow : Type 0 where
  pub name : Text
  pub architecture : Text
  pub installed_version : Text
  pub candidate_version : Text

-- `package_plan_tuple`
unfoldable pub package_plan : List PendingPackage → List PlanRow
package_plan [] = []
package_plan (p ∷ ps) =
    record {
      name = p.name;
      architecture = p.architecture;
      installed_version = p.installed_version;
      candidate_version = p.candidate_version;
    }
    ∷ package_plan ps

-- `cleanup_plan_tuple`: a removable package has no other field than those compared.
unfoldable pub cleanup_plan : List RemovablePackage → List RemovablePackage
cleanup_plan [] = []
cleanup_plan (p ∷ ps) =
    record { name = p.name; architecture = p.architecture; installed_version = p.installed_version }
    ∷ cleanup_plan ps

abbrev pub update_error : UpdateOutcome → String → UpdateError
update_error o s = record { outcome = o; message = codes s }

-- The plan of a record that may be updated from: successful, with packages and a token, reviewed.
unfoldable pub reviewed_plan : Option (Ref ScanRecord) → Option (List PlanRow)
reviewed_plan none = none
reviewed_plan (some r) =
    if has_plan r.value && is_some r.value.token && r.value.reviewed
    then elim r.value.result [ none ↦ none | some x ↦ some (package_plan x.packages) ]
    else none

abbrev pub running_update : ℕ → Bool → UpdateRecord
running_update at skip = record no_update {
  status = UpdateStatus.running;
  last_attempt = some at;
  snapshot_skipped = skip;
}

-- The attempt that a start hands to its coroutine: its own record and the plan to hold to.
pub record Attempt (P : Type 0) : Type 0 where
  pub own : Ref UpdateRecord
  pub plan : P

-- The writes of `async_start_update` up to its own record.
unfoldable pub retire_evidence : Key → Manager → Manager
retire_evidence k m =
    let m1 = dismiss_review k (record m { viewed_tokens = pop k m.viewed_tokens }) in
    set_record k no_scan (invalidate_health k (invalidate_cleanup k m1))

unfoldable pub accept_update : Key → ℕ → Bool → Manager → Manager
accept_update k at skip m =
    let m1 = set_update_record k (running_update at skip) (retire_evidence k m) in
    record m1 { update_tasks = put k m1.fresh m1.update_tasks; fresh = m1.fresh + 1 }

-- The end of the guards of `async_start_update`, over the plan that was reviewed.
abbrev pub begin_update :
    Key
    → ℕ
    → Bool
    → Manager
    → Option (List PlanRow)
    → Result UpdateError (Attempt (List PlanRow)) × Manager
begin_update k at skip m none = (
  err (
      update_error UpdateOutcome.plan_failed
        "a current non-empty reviewed package plan is required"),
  m,
)
begin_update k at skip m (some plan) = (
  ok (record { own = new_ref (running_update at skip) (retire_evidence k m); plan = plan }),
  accept_update k at skip m,
)

-- `async_start_update`
unfoldable pub start_update :
    Key → Bool → Bool → Bool → ℕ → Manager → Result UpdateError (Attempt (List PlanRow)) × Manager
start_update k target_is_running snapshot_permission skip_snapshot at m =
    if not m.configured || not m.has_proxmox
    then (
      err (
          update_error UpdateOutcome.helper_outdated
            "package update prerequisites are not configured"),
      m,
    )
    else if not target_is_running
    then (
      err (
          update_error UpdateOutcome.guest_unavailable
            "LXC is not present and running in current Proxmox data"),
      m,
    )
    else if not skip_snapshot && not snapshot_permission
    then (
      err (
          update_error UpdateOutcome.snapshot_failed
            "VM.Snapshot permission is required for package updates"),
      m,
    )
    else if restore_owns k.vmid m
    then (
      err (update_error UpdateOutcome.package_manager_busy "snapshot Restore owns this LXC VMID"),
      m,
    )
    else if package_busy k.vmid m
    then (
      err (
          update_error UpdateOutcome.package_manager_busy
            "a package scan, update, cleanup, or health check is already running for this LXC VMID"),
      m,
    )
    else begin_update k at skip_snapshot m (reviewed_plan (get k m.records))

unfoldable pub accept_autoremove : Key → ℕ → Manager → Manager
accept_autoremove k at m =
    let m1 =
      set_cleanup_record k (running_update at false)
        (invalidate_health k (invalidate_cleanup k m)) in
    record m1 { cleanup_tasks = put k m1.fresh m1.cleanup_tasks; fresh = m1.fresh + 1 }

abbrev pub begin_autoremove :
    Key
    → ℕ
    → Manager
    → Option CleanupEvidence
    → Result UpdateError (Attempt (List RemovablePackage)) × Manager
begin_autoremove k at m none = (
  err (
      update_error UpdateOutcome.plan_failed
        "a current displayed non-empty cleanup plan is required"),
  m,
)
begin_autoremove k at m (some e) =
    if is_empty e.candidates
    then (
      err (
          update_error UpdateOutcome.plan_failed
            "a current displayed non-empty cleanup plan is required"),
      m,
    )
    else (
      ok (record { own = new_ref (running_update at false) m; plan = cleanup_plan e.candidates }),
      accept_autoremove k at m,
    )

-- `async_start_autoremove`
unfoldable pub start_autoremove :
    Key → Bool → Bool → ℕ → Manager → Result UpdateError (Attempt (List RemovablePackage)) × Manager
start_autoremove k target_is_running snapshot_permission at m =
    if not m.configured || not m.has_proxmox
    then (
      err (
          update_error UpdateOutcome.helper_outdated
            "package cleanup prerequisites are not configured"),
      m,
    )
    else if not target_is_running
    then (
      err (
          update_error UpdateOutcome.guest_unavailable
            "LXC is not present and running in current Proxmox data"),
      m,
    )
    else if not snapshot_permission
    then (
      err (
          update_error UpdateOutcome.snapshot_failed
            "VM.Snapshot permission is required for package cleanup"),
      m,
    )
    else if restore_owns k.vmid m
    then (
      err (update_error UpdateOutcome.package_manager_busy "snapshot Restore owns this LXC VMID"),
      m,
    )
    else if package_busy k.vmid m
    then (
      err (
          update_error UpdateOutcome.package_manager_busy
            "a package scan, update, cleanup, or health check is already running for this LXC VMID"),
      m,
    )
    else begin_autoremove k at m (get k m.cleanup_evidence)

-- The Health claim that is made just before a success is published.
abbrev pub claim_before_publish :
    Bool → Key → HealthSource → UpdateRecord → Manager → Option (Ref HealthRecord) × Manager
claim_before_publish claim_health k source outcome m =
    if claim_health && update_success outcome.status then try_claim_health k source m else (none, m)

-- `_finish_update`
unfoldable pub finish_update :
    Key → Ref UpdateRecord → UpdateRecord → Bool → Launch → Manager → Bool × Manager
finish_update k own outcome claim_health launch m =
    if is_own (get k m.update_records) own
    then (let (claim, m1) =
          claim_before_publish claim_health k HealthSource.update outcome
            (record m { update_tasks = pop k m.update_tasks }) in
        (
          true,
          start_claimed_health k claim launch
              (notify (Notice.update_completed k outcome) (set_update_record k outcome m1)),
        ))
    else (false, m)

-- `_finish_cleanup`
unfoldable pub finish_cleanup :
    Key → Ref UpdateRecord → UpdateRecord → Bool → Launch → Manager → Bool × Manager
finish_cleanup k own outcome claim_health launch m =
    if is_own (get k m.cleanup_records) own
    then (let (claim, m1) =
          claim_before_publish claim_health k HealthSource.autoremove outcome
            (record m { cleanup_tasks = pop k m.cleanup_tasks }) in
        (
          true,
          start_claimed_health k claim launch
              (notify (Notice.cleanup_completed k outcome) (set_cleanup_record k outcome m1)),
        ))
    else (false, m)
