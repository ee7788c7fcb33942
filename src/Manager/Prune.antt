-- ===== src/Manager/Prune.antt =====
-- What the manager drops when Proxmox no longer shows an LXC, or shows it not running
-- (custom_components/hubinet_ops/packages/manager.py). A Python set has no order; its members are
-- visited here in the order in which they were added.
use hubinet_ops_next.Prelude.{
  ℕ, Bool, false, ◌||◌, Option, none, some, List, [], ◌∷◌, ◌++◌, if◌then◌else◌, is_some, is_empty,
  ◌==◌, leb,
}
use hubinet_ops_next.Dict.{Key, Dict, get, pop, keys, member, add, discard}
use hubinet_ops_next.Models.{ScanRecord}
use hubinet_ops_next.Manager.State.{
  Ref, Manager, Notice, notify, cancel, had_health, invalidate_health,
}
use hubinet_ops_next.Manager.Scan.{has_plan}
use hubinet_ops_next.Manager.Restore.{
  dismiss_if, cleanup_invalidated_if, drop_evidence, had_review, had_cleanup,
}

-- `set(xs)`
unfoldable pub to_set : List Key → List Key
to_set [] = []
to_set (k ∷ ks) = add k (to_set ks)

-- The members of the first list that are not in the second.
unfoldable pub difference : List Key → List Key → List Key
difference [] ys = []
difference (k ∷ ks) ys = let rest = difference ks ys in if member k ys then rest else k ∷ rest

-- The keys that `async_prune` looks through.
unfoldable pub known_targets : Manager → List Key
known_targets m = to_set (
    keys m.records
    ++ (keys m.update_records
        ++ (keys m.cleanup_evidence
            ++ (m.fenced_evidence ++ (keys m.cleanup_records ++ keys m.health_records)))))

-- One round of the loop of `async_prune`.
unfoldable pub prune_target : Key → Manager → Manager
prune_target k m =
    let m1 = invalidate_health k (record m {
      records = pop k m.records;
      update_records = pop k m.update_records;
      cleanup_evidence = pop k m.cleanup_evidence;
      fenced_evidence = discard k m.fenced_evidence;
      cleanup_records = pop k m.cleanup_records;
      viewed_tokens = pop k m.viewed_tokens;
    }) in
    let m2 = cleanup_invalidated_if (had_cleanup k m) k (dismiss_if (had_review k m) k m1) in
    let m3 = cancel (get k m2.tasks) (record m2 { tasks = pop k m2.tasks }) in
    let m4 = cancel (get k m3.update_tasks) (record m3 { update_tasks = pop k m3.update_tasks }) in
    cancel (get k m4.cleanup_tasks) (record m4 { cleanup_tasks = pop k m4.cleanup_tasks })

unfoldable pub prune_all : List Key → Manager → Manager
prune_all [] m = m
prune_all (k ∷ ks) m = prune_all ks (prune_target k m)

-- `async_prune`
unfoldable pub prune : List Key → Manager → Manager
prune current m =
    let stale = difference (known_targets m) current in
    if is_empty stale then m else notify Notice.state_change (prune_all stale m)

-- The keys that `async_invalidate_non_running` looks through.
unfoldable pub evidence_targets : Manager → List Key
evidence_targets m = to_set (
    keys m.records
    ++ (keys m.tasks
        ++ (keys m.update_tasks
            ++ (keys m.cleanup_evidence
                ++ (keys m.cleanup_tasks ++ (keys m.viewed_tokens ++ keys m.health_records))))))

-- One round of the loop of `async_invalidate_non_running`.
unfoldable pub invalidate_target : Key → Manager → Manager
invalidate_target k m =
    let m1 = drop_evidence k m in
    let m2 = cancel (get k m1.tasks) (record m1 { tasks = pop k m1.tasks }) in
    cleanup_invalidated_if (had_cleanup k m) k (dismiss_if (had_review k m) k m2)

-- Whether that round found anything.
unfoldable pub target_changed : Key → Manager → Bool
target_changed k m = had_review k m || had_cleanup k m || had_health k m || is_some (get k m.tasks)

unfoldable pub invalidate_all : List Key → Manager → Bool → Manager × Bool
invalidate_all [] m changed = (m, changed)
invalidate_all (k ∷ ks) m changed =
    invalidate_all ks (invalidate_target k m) (changed || target_changed k m)

-- `async_invalidate_non_running`
unfoldable pub invalidate_non_running : List Key → Manager → Manager
invalidate_non_running running m =
    let (m1, changed) = invalidate_all (difference (evidence_targets m) running) m false in
    if changed then notify Notice.state_change m1 else m1

-- The keys whose stored scan has a plan.
unfoldable pub plan_targets : Dict (Ref ScanRecord) → List Key
plan_targets [] = []
plan_targets ((k, r) ∷ d) = let rest = plan_targets d in if has_plan r.value then k ∷ rest else rest

-- `actionable_presentation_targets`
unfoldable pub actionable_presentation_targets : Manager → List Key
actionable_presentation_targets m = to_set (
    keys m.viewed_tokens
    ++ (keys m.cleanup_evidence
        ++ (keys m.tasks
            ++ (keys m.update_tasks ++ (keys m.cleanup_tasks ++ plan_targets m.records)))))

-- `_set_helper_version`, for a version that is an integer
unfoldable pub set_helper_version : ℕ → Manager → Manager
set_helper_version v m =
    let m' = notify (Notice.helper_version_changed v) (record m { helper_version = some v }) in
    elim m.helper_version [ none ↦ m' | some w ↦ if w == v then m else m' ]

-- `_sync_helper_version`: `none` is a version that is missing or no integer.
unfoldable pub sync_helper_version : Option ℕ → Manager → Manager
sync_helper_version none m = m
sync_helper_version (some v) m = if leb 1 v then set_helper_version v m else m
