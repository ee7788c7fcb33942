-- ===== src/Manager/Exclusion/Discards.antt =====
-- The operations of `PackageManager` that drop state make nothing active
-- (custom_components/hubinet_ops/packages/manager.py).
use hubinet_ops_next.Prelude.{
  Bool, false, List, [], ◌∷◌, arith, refl, Bool-cases, inl, inr, is_empty,
}
use hubinet_ops_next.Dict.{Key, member}
use hubinet_ops_next.Dict.Laws.{count_at-pop, count_vmid-discard}
use hubinet_ops_next.Manager.State.{
  Notice, cancel, Manager, scan_is_running, health_is_running, invalidate_health,
}
use hubinet_ops_next.Manager.Restore.{
  had_review, had_cleanup, drop_evidence, invalidate_restore_target, end_restore,
}
use hubinet_ops_next.Manager.Prune.{
  prune_target, prune_all, prune, invalidate_target, invalidate_all, invalidate_non_running,
  difference, evidence_targets, known_targets,
}
use hubinet_ops_next.Manager.Exclusion.{
  restores, scans, updates, cleanups, healths, Quiet, Quiet-refl, Quiet-trans,
}
use hubinet_ops_next.Manager.Exclusion.Moves.{
  Quiet-same, Quiet-pop, Quiet-notify, Quiet-if, Quiet-dismiss_if, Quiet-cleanup_invalidated_if,
}

Quiet-drop_evidence : (k : Key) (m : Manager) → Quiet m (drop_evidence k m)
unfolding drop_evidence invalidate_health restores scans updates cleanups healths
Quiet-drop_evidence k m = record {
  restores_le = λ v. omega arith;
  scans_le = λ v. count_at-pop v scan_is_running k m.records;
  updates_le = λ v. omega arith;
  cleanups_le = λ v. omega arith;
  healths_le = λ v. count_at-pop v health_is_running k m.health_records;
}

pub Quiet-invalidate_restore_target :
    (k : Key) (m : Manager) → Quiet m (invalidate_restore_target k m).1
unfolding invalidate_restore_target
Quiet-invalidate_restore_target k m = elim (Bool-cases (member k m.restore_reserved)) [
  | inl e ↦ rw e (
      Quiet-trans (Quiet-drop_evidence k m)
        (Quiet-same (ground arith) (ground arith) (ground arith) (ground arith) (ground arith)))
  | inr e ↦ rw e (Quiet-refl m)
]

pub Quiet-end_restore : (k : Key) (m : Manager) → Quiet m (end_restore k m)
unfolding end_restore restores scans updates cleanups healths
Quiet-end_restore k m = elim (Bool-cases (member k m.restore_reserved)) [
  | inl e ↦ rw e (record {
    restores_le = λ v. count_vmid-discard v k m.restore_reserved;
    scans_le = λ v. omega arith;
    updates_le = λ v. omega arith;
    cleanups_le = λ v. omega arith;
    healths_le = λ v. omega arith;
  })
  | inr e ↦ rw e (Quiet-refl m)
]

Quiet-prune_target : (k : Key) (m : Manager) → Quiet m (prune_target k m)
unfolding prune_target invalidate_health
Quiet-prune_target k m =
    Quiet-pop k (ground arith) (ground arith) (ground arith) (ground arith) (ground arith)

Quiet-prune_all : (ks : List Key) (m : Manager) → Quiet m (prune_all ks m)
unfolding prune_all
Quiet-prune_all [] m = Quiet-refl m
Quiet-prune_all (k ∷ ks) m =
    Quiet-trans (Quiet-prune_target k m) (Quiet-prune_all ks (prune_target k m))

pub Quiet-prune : (current : List Key) (m : Manager) → Quiet m (prune current m)
unfolding prune
Quiet-prune current m =
    let stale = difference (known_targets m) current in
    Quiet-if (is_empty stale) (Quiet-refl m)
      (Quiet-trans (Quiet-prune_all stale m) (Quiet-notify Notice.state_change (prune_all stale m)))

Quiet-invalidate_target : (k : Key) (m : Manager) → Quiet m (invalidate_target k m)
unfolding invalidate_target cancel
Quiet-invalidate_target k m = Quiet-trans (Quiet-drop_evidence k m) (
    Quiet-trans (Quiet-same refl refl refl refl refl) (
      Quiet-trans (Quiet-dismiss_if (had_review k m) k _)
        (Quiet-cleanup_invalidated_if (had_cleanup k m) k _)))

Quiet-invalidate_all : (ks : List Key) (m : Manager) (b : Bool) → Quiet m (invalidate_all ks m b).0
unfolding invalidate_all
Quiet-invalidate_all [] m b = Quiet-refl m
Quiet-invalidate_all (k ∷ ks) m b =
    Quiet-trans (Quiet-invalidate_target k m) (Quiet-invalidate_all ks (invalidate_target k m) _)

pub Quiet-invalidate_non_running :
    (running : List Key) (m : Manager) → Quiet m (invalidate_non_running running m)
unfolding invalidate_non_running
Quiet-invalidate_non_running running m =
    let r = invalidate_all (difference (evidence_targets m) running) m false in
    Quiet-trans (Quiet-invalidate_all (difference (evidence_targets m) running) m false)
      (Quiet-if r.1 (Quiet-notify Notice.state_change r.0) (Quiet-refl r.0))
