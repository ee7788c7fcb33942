-- ===== src/Manager/Restore.antt =====
-- The Restore reservation of `PackageManager`
-- (custom_components/hubinet_ops/packages/manager.py).
use hubinet_ops_next.Prelude.{Bool, ◌||◌, Text, codes, if◌then◌else◌, is_some}
use hubinet_ops_next.Prelude.Results.{Result, ok, err}
use hubinet_ops_next.Dict.{Key, get, pop, member, add, discard}
use hubinet_ops_next.Models.{UpdateOutcome, UpdateError}
use hubinet_ops_next.Manager.State.{
  Manager, Notice, notify, dismiss_review, invalidate_health, restore_owns, scan_busy, update_busy,
  cleanup_busy,
}
use hubinet_ops_next.Manager.Update.{update_error}

-- `begin_restore`
unfoldable pub begin_restore : Key → Manager → Result UpdateError (Unit {0}) × Manager
begin_restore k m =
    if restore_owns k.vmid m
    then (
      err (
          update_error UpdateOutcome.package_manager_busy
            "a snapshot Restore is already active for this LXC VMID"),
      m,
    )
    else if scan_busy k.vmid m || (update_busy k.vmid m || cleanup_busy k.vmid m)
    then (
      err (
          update_error UpdateOutcome.package_manager_busy
            "a package scan, update, or cleanup is active for this LXC VMID"),
      m,
    )
    else (
      ok tt,
      notify Notice.state_change (record m { restore_reserved = add k m.restore_reserved }),
    )

-- The presentation of what was dropped.
abbrev pub dismiss_if : Bool → Key → Manager → Manager
dismiss_if b k m = if b then dismiss_review k m else m

abbrev pub cleanup_invalidated_if : Bool → Key → Manager → Manager
cleanup_invalidated_if b k m = if b then notify (Notice.cleanup_invalidated k) m else m

-- The scan, review, cleanup and Health evidence of one LXC goes, and late evidence is fenced off.
unfoldable pub drop_evidence : Key → Manager → Manager
drop_evidence k m = invalidate_health k (record m {
  fenced_evidence = add k m.fenced_evidence;
  records = pop k m.records;
  viewed_tokens = pop k m.viewed_tokens;
  cleanup_evidence = pop k m.cleanup_evidence;
})

-- Whether a scan or a review, or cleanup evidence, was there.
abbrev pub had_review : Key → Manager → Bool
had_review k m = is_some (get k m.records) || is_some (get k m.viewed_tokens)

abbrev pub had_cleanup : Key → Manager → Bool
had_cleanup k m = is_some (get k m.cleanup_evidence)

-- `invalidate_restore_target`; the error stands for its `RuntimeError`.
unfoldable pub invalidate_restore_target : Key → Manager → Result Text (Unit {0}) × Manager
invalidate_restore_target k m =
    if member k m.restore_reserved
    then (
      ok tt,
      notify Notice.state_change (
          cleanup_invalidated_if (had_cleanup k m) k
            (dismiss_if (had_review k m) k (drop_evidence k m))),
    )
    else (err (codes "LXC Restore invalidation requires its reservation"), m)

-- `end_restore`
unfoldable pub end_restore : Key → Manager → Manager
end_restore k m =
    if member k m.restore_reserved
    then notify Notice.state_change (record m { restore_reserved = discard k m.restore_reserved })
    else m
