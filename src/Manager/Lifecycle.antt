-- ===== src/Manager/Lifecycle.antt =====
-- The life of a `PackageManager` (custom_components/hubinet_ops/packages/manager.py): the event
-- loop runs one operation at a time, and an attempt that waits is resumed by its finish.
pub mod Frame
pub mod Finish
pub mod Attempts
pub mod Invariant
pub mod Fenced
pub mod Examples
use hubinet_ops_next.Prelude.{ℕ, ◌≡◌, Bool, false, Option, List, [], ◌∷◌, ◌++◌, Text}
use hubinet_ops_next.Prelude.Results.{Answer, ok}
use hubinet_ops_next.Dict.{Key}
use hubinet_ops_next.Models.{
  ScanError, ScanResult, ScanRecord, UpdateError, UpdateRecord, HealthError, HealthOutcome,
  HealthRecord, RemovablePackage, update_running,
}
use hubinet_ops_next.Manager.State.{Ref, Manager, Notice, notify, new_manager}
use hubinet_ops_next.Manager.Scan.{
  start_scan, complete_scan, publish_cleanup, confirm_review, mark_viewed, confirm_viewed_review,
}
use hubinet_ops_next.Manager.Health.{Launch, start_health, complete_health}
use hubinet_ops_next.Manager.Update.{
  Attempt, PlanRow, start_update, finish_update, start_autoremove, finish_cleanup,
}
use hubinet_ops_next.Manager.Restore.{begin_restore, invalidate_restore_target, end_restore}
use hubinet_ops_next.Manager.Prune.{prune, invalidate_non_running, sync_helper_version}
use hubinet_ops_next.Manager.Ownership.{Run, In}

-- The operations whose callers keep nothing that this model follows. The end of a scan or of a
-- Health check may come with any own record, also a stale one.
pub data Act : Type 0 where
  scan : Key → Bool → ℕ → Act
  scan_answer :
      Key
      → Ref ScanRecord
      → ℕ
      → Text
      → Answer ScanError ScanResult
      → Answer UpdateError (List RemovablePackage)
      → ℕ
      → Bool
      → Act
  view : Key → Text → Act
  confirm : Key → Text → Act
  approve : Key → Act
  observe_cleanup : Key → Option (List RemovablePackage) → Text → ℕ → Bool → Act
  health : Key → Bool → Launch → Act
  health_answer : Key → Ref HealthRecord → Answer HealthError HealthOutcome → ℕ → Act
  restore : Key → Act
  restore_submit : Key → Act
  restore_end : Key → Act
  discover : List Key → Act
  running_targets : List Key → Act
  helper : Option ℕ → Act
  task_done : ℕ → Act
  report_update report_cleanup : Key → UpdateRecord → Act

unfoldable pub act : Act → Manager → Manager
act (scan k running at) m = (start_scan k running at m).1
act (scan_answer k own at token scanned cleanup now shown) m =
    complete_scan k own at token scanned cleanup now shown m
act (view k token) m = (mark_viewed k token m).1
act (confirm k token) m = (confirm_review k token m).1
act (approve k) m = (confirm_viewed_review k m).1
act (observe_cleanup k c source at shown) m = publish_cleanup k c source at shown m
act (health k running l) m = (start_health k running l m).1
act (health_answer k own a at) m = complete_health k own a at m
act (restore k) m = (begin_restore k m).1
act (restore_submit k) m = (invalidate_restore_target k m).1
act (restore_end k) m = end_restore k m
act (discover current) m = prune current m
act (running_targets running) m = invalidate_non_running running m
act (helper v) m = sync_helper_version v m
act (task_done t) m = record m { finished = t ∷ m.finished }
act (report_update k r) m = notify (Notice.update_completed k r) m
act (report_cleanup k r) m = notify (Notice.cleanup_completed k r) m

-- The manager with the attempts of Update and Autoremove that are under way.
pub record System : Type 0 where
  pub manager : Manager
  pub updates : List Run
  pub cleanups : List Run

-- An attempt that is under way stays in the list after its first finish: a second one, or one
-- after a pruning, is among the steps.
pub data Step (s t : System) : Type 0 where
  acted : (a : Act) → t ≡ record s { manager = act a s.manager } → Step s t
  update_started :
      (k : Key) (running permission skip : Bool) (at : ℕ) (x : Attempt (List PlanRow))
      → (start_update k running permission skip at s.manager).0 ≡ ok x
      → t ≡ record s {
        manager = (start_update k running permission skip at s.manager).1;
        updates = (k, x.own) ∷ s.updates;
      }
      → Step s t
  update_finished :
      (k : Key) (own : Ref UpdateRecord) (outcome : UpdateRecord) (claim : Bool) (l : Launch)
      → In (k, own) s.updates
      → update_running outcome.status ≡ false
      → t ≡ record s { manager = (finish_update k own outcome claim l s.manager).1 }
      → Step s t
  autoremove_started :
      (k : Key) (running permission : Bool) (at : ℕ) (x : Attempt (List RemovablePackage))
      → (start_autoremove k running permission at s.manager).0 ≡ ok x
      → t ≡ record s {
        manager = (start_autoremove k running permission at s.manager).1;
        cleanups = (k, x.own) ∷ s.cleanups;
      }
      → Step s t
  cleanup_finished :
      (k : Key) (own : Ref UpdateRecord) (outcome : UpdateRecord) (claim : Bool) (l : Launch)
      → In (k, own) s.cleanups
      → update_running outcome.status ≡ false
      → t ≡ record s { manager = (finish_cleanup k own outcome claim l s.manager).1 }
      → Step s t

abbrev pub start : Bool → Bool → System
start configured has_proxmox = record {
  manager = new_manager configured has_proxmox;
  updates = [];
  cleanups = [];
}

-- What a manager can come to after it was made.
pub data Reachable (configured has_proxmox : Bool) : System → Type 0 where
  made : Reachable configured has_proxmox (start configured has_proxmox)
  after :
      {s t : System}
      → Reachable configured has_proxmox s
      → Step s t
      → Reachable configured has_proxmox t
