-- ===== src/Manager/Lifecycle/Examples.antt =====
-- The theorems on the reachable states of a `PackageManager` at work on one guest
-- (custom_components/hubinet_ops/packages/manager.py).
use hubinet_ops_next.Prelude.{◌≡◌, refl, true, false, none, [], ◌∷◌, text_eq}
use hubinet_ops_next.Prelude.Results.{ok, returned}
use hubinet_ops_next.Dict.{key_eq, get, put, pop, any_at, any_vmid, member, discard, keys, add}
use hubinet_ops_next.Manager.State.{
  cancel, invalidate_health, set_update_record, invalidate_cleanup, set_record, restore_owns,
  scan_busy, update_busy, cleanup_busy, health_busy, package_busy,
}
use hubinet_ops_next.Manager.Scan.{
  start_scan, accept_scan, complete_scan, scan_outcome, finish_scan, publish_cleanup,
  confirm_review, has_plan,
}
use hubinet_ops_next.Manager.Update.{
  start_update, package_plan, reviewed_plan, retire_evidence, accept_update,
}
use hubinet_ops_next.Manager.Lifecycle.{
  act, running_targets, scan, scan_answer, confirm, System, acted, update_started, start, Reachable,
  made, after,
}
use hubinet_ops_next.Manager.Lifecycle.Invariant.{Reachable-IsExclusive}
use hubinet_ops_next.Manager.Lifecycle.Fenced.{fenced_clear}
use hubinet_ops_next.Manager.Prune.{
  invalidate_non_running, invalidate_all, invalidate_target, evidence_targets, to_set, difference,
  target_changed,
}
use hubinet_ops_next.Manager.Prune.{prune}
use hubinet_ops_next.Manager.Removed.{IsGone, prune-IsGone}
use hubinet_ops_next.Manager.Restore.{drop_evidence}
use hubinet_ops_next.Manager.Exclusion.{IsExclusive}
use hubinet_ops_next.Manager.Cases.{guest, token, result, scan_own, m3, attempt}

abbrev scanned : System
scanned = record (start true true) { manager = act (scan guest true 5) (start true true).manager }

abbrev answered : System
answered = record scanned {
  manager =
      act (scan_answer guest scan_own 5 token (returned result) (returned []) 6 true)
        scanned.manager;
}

abbrev reviewed : System
reviewed = record answered { manager = act (confirm guest token) answered.manager }

abbrev updating : System
updating = record reviewed {
  manager = (start_update guest true true false 7 reviewed.manager).1;
  updates = (guest, attempt.own) ∷ reviewed.updates;
}

reviewed-Reachable : Reachable true true reviewed
reviewed-Reachable =
    after
      (after (after made (acted (scan guest true 5) refl))
        (acted (scan_answer guest scan_own 5 token (returned result) (returned []) 6 true) refl))
      (acted (confirm guest token) refl)

same-manager : reviewed.manager ≡ m3
unfolding act
same-manager = refl

started : (start_update guest true true false 7 m3).0 ≡ ok attempt
unfolding start_update restore_owns any_vmid package_busy scan_busy update_busy cleanup_busy
    health_busy any_at reviewed_plan get put pop member discard has_plan confirm_review
    complete_scan finish_scan publish_cleanup start_scan accept_scan retire_evidence package_plan
    set_record scan_outcome key_eq text_eq invalidate_cleanup
started = refl

updating-Reachable : Reachable true true updating
updating-Reachable =
    after reviewed-Reachable
      (update_started guest true true false 7 attempt (rw same-manager started) refl)

Reachable-IsExclusive_example : IsExclusive updating.manager
Reachable-IsExclusive_example = Reachable-IsExclusive updating-Reachable

abbrev stopped : System
stopped = record updating { manager = act (running_targets []) updating.manager }

stopped-Reachable : Reachable true true stopped
stopped-Reachable = after updating-Reachable (acted (running_targets []) refl)

stopped-fenced : member guest stopped.manager.fenced_evidence ≡ true
unfolding start_update restore_owns any_vmid package_busy scan_busy update_busy cleanup_busy
    health_busy any_at reviewed_plan get put pop member discard has_plan confirm_review
    complete_scan finish_scan publish_cleanup start_scan accept_scan retire_evidence package_plan
    set_record scan_outcome key_eq text_eq invalidate_cleanup act invalidate_non_running
    invalidate_all invalidate_target evidence_targets to_set difference keys drop_evidence add
    cancel invalidate_health set_update_record target_changed accept_update
stopped-fenced = refl

fenced_clear_example : get guest stopped.manager.cleanup_evidence ≡ none
fenced_clear_example = fenced_clear stopped-Reachable guest stopped-fenced

not_shown : member guest [] ≡ false
unfolding member
not_shown = refl

prune-IsGone_example : IsGone guest (prune [] updating.manager)
prune-IsGone_example = prune-IsGone [] updating.manager guest not_shown
