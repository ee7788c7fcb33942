-- ===== src/Manager/Lifecycle/Invariant.antt =====
-- The exclusion holds in whatever state a `PackageManager` can come to
-- (custom_components/hubinet_ops/packages/manager.py).
use hubinet_ops_next.Prelude.{ℕ, refl, Bool, Option, arith}
use hubinet_ops_next.Dict.{get, count_at, count_vmid}
use hubinet_ops_next.Manager.State.{Manager}
use hubinet_ops_next.Manager.Exclusion.{
  restores, scans, updates, cleanups, healths, IsExclusive, Quiet-IsExclusive,
}
use hubinet_ops_next.Manager.Exclusion.Moves.{
  Quiet-complete_scan, Quiet-confirm_review, Quiet-mark_viewed, Quiet-confirm_viewed_review,
  Quiet-publish_cleanup, Quiet-finish_health, Quiet-same,
}
use hubinet_ops_next.Manager.Exclusion.Discards.{
  Quiet-invalidate_restore_target, Quiet-end_restore, Quiet-prune, Quiet-invalidate_non_running,
}
use hubinet_ops_next.Manager.Exclusion.Starts.{
  start_scan-IsExclusive, start_update-IsExclusive, start_autoremove-IsExclusive,
  start_health-IsExclusive, begin_restore-IsExclusive,
}
use hubinet_ops_next.Manager.Lifecycle.{
  Act, act, scan, scan_answer, view, confirm, approve, observe_cleanup, health, health_answer,
  restore, restore_submit, restore_end, discover, running_targets, helper, task_done, report_update,
  report_cleanup, System, Step, acted, update_started, update_finished, autoremove_started,
  cleanup_finished, Reachable, made, after, start,
}
use hubinet_ops_next.Manager.Lifecycle.Frame.{Agrees, Agrees-act}
use hubinet_ops_next.Manager.Prune.{sync_helper_version, set_helper_version}
use hubinet_ops_next.Manager.Health.{complete_health}
use hubinet_ops_next.Manager.Lifecycle.Finish.{
  finish_update-IsExclusive, finish_cleanup-IsExclusive,
}
use hubinet_ops_next.Manager.Lifecycle.Attempts.{
  Agrees-start_update, Agrees-start_autoremove, Agrees-finish_update, Agrees-finish_cleanup,
}

helper-IsExclusive :
    (v : Option ℕ) (m : Manager) → IsExclusive m → IsExclusive (sync_helper_version v m)
unfolding sync_helper_version set_helper_version
helper-IsExclusive v m =
    Quiet-IsExclusive
      (Quiet-same (ground arith) (ground arith) (ground arith) (ground arith) (ground arith))

act-IsExclusive : (a : Act) (m : Manager) → IsExclusive m → IsExclusive (act a m)
unfolding act complete_health
act-IsExclusive (scan k running at) m = start_scan-IsExclusive k running at m
act-IsExclusive (scan_answer k own at token scanned cleanup now shown) m =
    Quiet-IsExclusive (Quiet-complete_scan k own at token scanned cleanup now shown m)
act-IsExclusive (view k token) m = Quiet-IsExclusive (Quiet-mark_viewed k token m)
act-IsExclusive (confirm k token) m = Quiet-IsExclusive (Quiet-confirm_review k token m)
act-IsExclusive (approve k) m = Quiet-IsExclusive (Quiet-confirm_viewed_review k m)
act-IsExclusive (observe_cleanup k c source at shown) m =
    Quiet-IsExclusive (Quiet-publish_cleanup k c source at shown m)
act-IsExclusive (health k running l) m = start_health-IsExclusive k running l m
act-IsExclusive (health_answer k own a at) m = Quiet-IsExclusive (Quiet-finish_health k own _ at m)
act-IsExclusive (restore k) m = begin_restore-IsExclusive k m
act-IsExclusive (restore_submit k) m = Quiet-IsExclusive (Quiet-invalidate_restore_target k m)
act-IsExclusive (restore_end k) m = Quiet-IsExclusive (Quiet-end_restore k m)
act-IsExclusive (discover current) m = Quiet-IsExclusive (Quiet-prune current m)
act-IsExclusive (running_targets running) m =
    Quiet-IsExclusive (Quiet-invalidate_non_running running m)
act-IsExclusive (helper v) m = helper-IsExclusive v m
act-IsExclusive (task_done t) m = Quiet-IsExclusive (Quiet-same refl refl refl refl refl)
act-IsExclusive (report_update k r) m = Quiet-IsExclusive (Quiet-same refl refl refl refl refl)
act-IsExclusive (report_cleanup k r) m = Quiet-IsExclusive (Quiet-same refl refl refl refl refl)

-- What holds of the manager and the attempts under way.
pub record IsSound (s : System) : Type 0 where
  pub exclusive : IsExclusive s.manager
  pub agrees : Agrees s.updates s.cleanups s.manager

IsSound-start : (configured has_proxmox : Bool) → IsSound (start configured has_proxmox)
unfolding restores scans updates cleanups healths count_at count_vmid get
IsSound-start configured has_proxmox = record {
  exclusive = record { mutations = λ v. omega arith; work = λ v. omega arith };
  agrees = record {
    updates = record {
      stored_lt = λ k r e. absurd (ground (arith, e));
      own_lt = λ k o i. absurd i;
      own_running = λ k o i. absurd i;
      own_same = λ k j o r i e q. absurd i;
    };
    cleanups = record {
      stored_lt = λ k r e. absurd (ground (arith, e));
      own_lt = λ k o i. absurd i;
      own_running = λ k o i. absurd i;
      own_same = λ k j o r i e q. absurd i;
    };
  };
}

Step-IsSound : {s t : System} → Step s t → IsSound s → IsSound t
Step-IsSound {s} (acted a p) h = rw p (record {
  exclusive = act-IsExclusive a s.manager h.exclusive;
  agrees = Agrees-act a s.manager h.agrees;
})
Step-IsSound {s} (update_started k running permission skip at x done p) h = rw p (record {
  exclusive = start_update-IsExclusive k running permission skip at s.manager h.exclusive;
  agrees = Agrees-start_update k running permission skip at s.manager x done h.agrees;
})
Step-IsSound {s} (update_finished k own outcome claim l i stopped p) h = rw p (record {
  exclusive =
      finish_update-IsExclusive k own outcome claim l s.manager i stopped h.exclusive
        h.agrees.updates;
  agrees = Agrees-finish_update k own outcome claim l s.manager h.agrees;
})
Step-IsSound {s} (autoremove_started k running permission at x done p) h = rw p (record {
  exclusive = start_autoremove-IsExclusive k running permission at s.manager h.exclusive;
  agrees = Agrees-start_autoremove k running permission at s.manager x done h.agrees;
})
Step-IsSound {s} (cleanup_finished k own outcome claim l i stopped p) h = rw p (record {
  exclusive =
      finish_cleanup-IsExclusive k own outcome claim l s.manager i stopped h.exclusive
        h.agrees.cleanups;
  agrees = Agrees-finish_cleanup k own outcome claim l s.manager h.agrees;
})

pub Reachable-IsSound : {c p : Bool} {s : System} → Reachable c p s → IsSound s
Reachable-IsSound {c} {p} made = IsSound-start c p
Reachable-IsSound (after r st) = Step-IsSound st (Reachable-IsSound r)

-- In every state that the manager reaches by whole operations, none of them started by a listener of a
-- notification in the middle of another, and whatever the order of the operations and of the answers
-- that its attempts wait for, at most one of Restore, Scan, Update and Autoremove is active for a VMID,
-- and at most one of Scan, Update, Autoremove and Health.
pub Reachable-IsExclusive : {c p : Bool} {s : System} → Reachable c p s → IsExclusive s.manager
Reachable-IsExclusive r = (Reachable-IsSound r).exclusive
