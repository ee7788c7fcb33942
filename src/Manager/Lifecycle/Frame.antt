-- ===== src/Manager/Lifecycle/Frame.antt =====
-- What each operation of `PackageManager` leaves of the stored Update and Autoremove records
-- (custom_components/hubinet_ops/packages/manager.py).
use hubinet_ops_next.Prelude.{
  ℕ, ◌≤◌, ◌≡◌, refl, Bool, true, false, Option, none, some, List, [], ◌∷◌, arith, Text, codes, not,
  ◌&&◌, if◌then◌else◌, Bool-cases, inl, inr, is_empty,
}
use hubinet_ops_next.Dict.{Key, get, pop, member}
use hubinet_ops_next.Prelude.Results.{Answer}
use hubinet_ops_next.Models.{
  ScanRecord, HealthRecord, HealthSource, HealthOutcome, ScanError, ScanResult, UpdateError,
  RemovablePackage, scan_success,
}
use hubinet_ops_next.Manager.State.{
  Ref, Manager, set_record, invalidate_cleanup, invalidate_health, claim_health_record, is_own,
  restore_owns, package_busy, cancel,
}
use hubinet_ops_next.Manager.Scan.{
  start_scan, accept_scan, complete_scan, finish_scan, publish_cleanup, mark_viewed, confirm_review,
  confirm_token, confirm_viewed_review, scan_outcome, observed_candidates,
}
use hubinet_ops_next.Manager.Health.{
  Launch, refused, suspended, completed, start_health, complete_health, finish_health,
  launch_health, withdraw_claim, start_claimed_health,
}
use hubinet_ops_next.Manager.Restore.{
  begin_restore, invalidate_restore_target, end_restore, drop_evidence, dismiss_if,
  cleanup_invalidated_if, had_review, had_cleanup,
}
use hubinet_ops_next.Manager.Prune.{
  prune, prune_all, prune_target, invalidate_non_running, invalidate_all, invalidate_target,
  sync_helper_version, set_helper_version, difference, evidence_targets, known_targets,
}
use hubinet_ops_next.Manager.Ownership.{Run, Owned, Owned-mono, Owned-pop}
use hubinet_ops_next.Manager.Lifecycle.{
  Act, act, scan, scan_answer, view, confirm, approve, observe_cleanup, health, health_answer,
  restore, restore_submit, restore_end, discover, running_targets, helper, task_done, report_update,
  report_cleanup,
}

-- The Update and Autoremove records stay, and object numbers only grow.
pub record Frame (m m' : Manager) : Type 0 where
  pub updates_eq : m'.update_records ≡ m.update_records
  pub cleanups_eq : m'.cleanup_records ≡ m.cleanup_records
  pub fresh_le : m.fresh ≤ m'.fresh

pub Frame-refl : (m : Manager) → Frame m m
Frame-refl m = record { updates_eq = refl; cleanups_eq = refl; fresh_le = omega arith }

pub Frame-trans : {a b c : Manager} → Frame a b → Frame b c → Frame a c
Frame-trans p q = record {
  updates_eq = cc (p.updates_eq, q.updates_eq);
  cleanups_eq = cc (p.cleanups_eq, q.cleanups_eq);
  fresh_le = omega (arith, p.fresh_le, q.fresh_le);
}

Frame-if : {m a b : Manager} (c : Bool) → Frame m a → Frame m b → Frame m (if c then a else b)
Frame-if true p q = p
Frame-if false p q = q

pub Frame-start_scan :
    (k : Key) (running : Bool) (at : ℕ) (m : Manager) → Frame m (start_scan k running at m).1
unfolding start_scan accept_scan set_record invalidate_cleanup
Frame-start_scan k running at m = ground arith

Frame-publish_cleanup :
    (k : Key) (c : Option (List RemovablePackage)) (source : Text) (at : ℕ) (shown : Bool)
    (m : Manager)
    → Frame m (publish_cleanup k c source at shown m)
unfolding publish_cleanup
Frame-publish_cleanup k c source at shown m = ground arith

Frame-finish_scan :
    (k : Key) (own : Ref ScanRecord) (r : ScanRecord) (m : Manager)
    → Frame m (finish_scan k own r m)
unfolding finish_scan set_record
Frame-finish_scan k own r m = ground arith

Frame-complete_scan :
    (k : Key) (own : Ref ScanRecord) (at : ℕ) (token : Text) (scanned : Answer ScanError ScanResult)
    (cleanup : Answer UpdateError (List RemovablePackage)) (now : ℕ) (shown : Bool) (m : Manager)
    → Frame m (complete_scan k own at token scanned cleanup now shown m)
unfolding complete_scan
Frame-complete_scan k own at token scanned cleanup now shown m =
    Frame-trans
      (Frame-if
        (scan_success (scan_outcome at token scanned).status && is_own (get k m.records) own)
        (Frame-publish_cleanup k (observed_candidates cleanup) (codes "scan") now shown m)
        (Frame-refl m))
      (Frame-finish_scan k own (scan_outcome at token scanned) _)

Frame-confirm_review : (k : Key) (token : Text) (m : Manager) → Frame m (confirm_review k token m).1
unfolding confirm_review set_record
Frame-confirm_review k token m = ground arith

Frame-confirm_token : (k : Key) (o : Option Text) (m : Manager) → Frame m (confirm_token k o m).1
unfolding confirm_token
Frame-confirm_token k none m = Frame-refl m
Frame-confirm_token k (some t) m = Frame-confirm_review k t m

Frame-mark_viewed : (k : Key) (token : Text) (m : Manager) → Frame m (mark_viewed k token m).1
unfolding mark_viewed
Frame-mark_viewed k token m = ground arith

Frame-finish_health :
    (k : Key) (own : Ref HealthRecord) (o : HealthOutcome) (at : ℕ) (m : Manager)
    → Frame m (finish_health k own o at m)
unfolding finish_health
Frame-finish_health k own o at m = ground arith

Frame-launch_health :
    (k : Key) (own : Ref HealthRecord) (l : Launch) (m : Manager)
    → Frame m (launch_health k own l m)
unfolding launch_health withdraw_claim
Frame-launch_health k own refused m = ground arith
Frame-launch_health k own suspended m = ground arith
Frame-launch_health k own (completed o at) m = Frame-finish_health k own o at m

pub Frame-start_claimed_health :
    (k : Key) (claim : Option (Ref HealthRecord)) (l : Launch) (m : Manager)
    → Frame m (start_claimed_health k claim l m)
unfolding start_claimed_health
Frame-start_claimed_health k none l m = Frame-refl m
Frame-start_claimed_health k (some own) l m =
    Frame-if (is_own (get k m.health_records) own) (Frame-launch_health k own l m) (Frame-refl m)

pub Frame-claim :
    (k : Key) (source : HealthSource) (m : Manager) → Frame m (claim_health_record k source m)
unfolding claim_health_record
Frame-claim k source m = ground arith

Frame-guard {ℓ} :
    {A : Type ℓ} {m : Manager} (b : Bool) (x y : A × Manager)
    → Frame m x.1
    → Frame m y.1
    → Frame m (if b then x else y).1
Frame-guard true x y p q = p
Frame-guard false x y p q = q

Frame-start_health :
    (k : Key) (running : Bool) (l : Launch) (m : Manager) → Frame m (start_health k running l m).1
unfolding start_health
Frame-start_health k running l m = Frame-guard (not m.configured) _ _ (Frame-refl m) (
    Frame-guard (not running) _ _ (Frame-refl m) (
      Frame-guard (restore_owns k.vmid m) _ _ (Frame-refl m) (
        Frame-guard (package_busy k.vmid m) _ _ (Frame-refl m)
          (Frame-trans (Frame-claim k HealthSource.manual m) (Frame-launch_health k _ l _)))))

Frame-begin_restore : (k : Key) (m : Manager) → Frame m (begin_restore k m).1
unfolding begin_restore
Frame-begin_restore k m = ground arith

Frame-drop_evidence : (k : Key) (m : Manager) → Frame m (drop_evidence k m)
unfolding drop_evidence invalidate_health
Frame-drop_evidence k m = ground arith

Frame-dismiss_if : (b : Bool) (k : Key) (m : Manager) → Frame m (dismiss_if b k m)
Frame-dismiss_if b k m = ground arith

Frame-cleanup_invalidated_if :
    (b : Bool) (k : Key) (m : Manager) → Frame m (cleanup_invalidated_if b k m)
Frame-cleanup_invalidated_if b k m = ground arith

Frame-invalidate_restore_target :
    (k : Key) (m : Manager) → Frame m (invalidate_restore_target k m).1
unfolding invalidate_restore_target
Frame-invalidate_restore_target k m = elim (Bool-cases (member k m.restore_reserved)) [
  | inl e ↦ rw e (
      Frame-trans (Frame-drop_evidence k m) (
        Frame-trans (Frame-dismiss_if (had_review k m) k _) (
          Frame-trans (Frame-cleanup_invalidated_if (had_cleanup k m) k _)
            (record { updates_eq = refl; cleanups_eq = refl; fresh_le = omega arith }))))
  | inr e ↦ rw e (Frame-refl m)
]

Frame-end_restore : (k : Key) (m : Manager) → Frame m (end_restore k m)
unfolding end_restore
Frame-end_restore k m = ground arith

Frame-invalidate_target : (k : Key) (m : Manager) → Frame m (invalidate_target k m)
unfolding invalidate_target cancel
Frame-invalidate_target k m = Frame-trans (Frame-drop_evidence k m) (
    Frame-trans (record { updates_eq = refl; cleanups_eq = refl; fresh_le = omega arith })
      (Frame-trans (Frame-dismiss_if (had_review k m) k _)
        (Frame-cleanup_invalidated_if (had_cleanup k m) k _)))

Frame-invalidate_all : (ks : List Key) (m : Manager) (b : Bool) → Frame m (invalidate_all ks m b).0
unfolding invalidate_all
Frame-invalidate_all [] m b = Frame-refl m
Frame-invalidate_all (k ∷ ks) m b =
    Frame-trans (Frame-invalidate_target k m) (Frame-invalidate_all ks (invalidate_target k m) _)

Frame-invalidate_non_running :
    (running : List Key) (m : Manager) → Frame m (invalidate_non_running running m)
unfolding invalidate_non_running
Frame-invalidate_non_running running m =
    let r = invalidate_all (difference (evidence_targets m) running) m false in
    Frame-trans (Frame-invalidate_all (difference (evidence_targets m) running) m false)
      (Frame-if r.1 (ground arith) (Frame-refl r.0))

Frame-helper : (v : Option ℕ) (m : Manager) → Frame m (sync_helper_version v m)
unfolding sync_helper_version set_helper_version
Frame-helper v m = ground arith

prune_target_fields :
    (k : Key) (m : Manager)
    → ((prune_target k m).update_records ≡ pop k m.update_records)
      × ((prune_target k m).cleanup_records ≡ pop k m.cleanup_records)
      × ((prune_target k m).fresh ≡ m.fresh)
unfolding prune_target invalidate_health
prune_target_fields k m = ground arith

-- The attempts under way agree with the stored records of both kinds.
pub record Agrees (us cs : List Run) (m : Manager) : Type 0 where
  pub updates : Owned m.fresh m.update_records us
  pub cleanups : Owned m.fresh m.cleanup_records cs

module _ {us cs : List Run} where
  pub Agrees-Frame : {m m' : Manager} → Frame m m' → Agrees us cs m → Agrees us cs m'
  Agrees-Frame f a = record {
    updates = rw f.updates_eq (Owned-mono f.fresh_le a.updates);
    cleanups = rw f.cleanups_eq (Owned-mono f.fresh_le a.cleanups);
  }

  Agrees-prune_target : (k : Key) (m : Manager) → Agrees us cs m → Agrees us cs (prune_target k m)
  Agrees-prune_target k m a =
      let (u, c, f) = prune_target_fields k m in
      record {
        updates = rw (u, f) (Owned-pop k a.updates);
        cleanups = rw (c, f) (Owned-pop k a.cleanups);
      }

  Agrees-prune_all : (ks : List Key) (m : Manager) → Agrees us cs m → Agrees us cs (prune_all ks m)
  unfolding prune_all
  Agrees-prune_all [] m a = a
  Agrees-prune_all (k ∷ ks) m a = Agrees-prune_all ks (prune_target k m) (Agrees-prune_target k m a)

  Agrees-prune :
      (current : List Key) (m : Manager) → Agrees us cs m → Agrees us cs (prune current m)
  unfolding prune
  Agrees-prune current m a = elim (Bool-cases (is_empty (difference (known_targets m) current))) [
    | inl e ↦ rw e a
    | inr e ↦ rw e (
        let p = Agrees-prune_all (difference (known_targets m) current) m a in
        record { updates = p.updates; cleanups = p.cleanups })
  ]

  -- Every operation but a start or a finish of Update and Autoremove keeps the agreement.
  pub Agrees-act : (a : Act) (m : Manager) → Agrees us cs m → Agrees us cs (act a m)
  unfolding act complete_health confirm_viewed_review
  Agrees-act (scan k running at) m = Agrees-Frame (Frame-start_scan k running at m)
  Agrees-act (scan_answer k own at token scanned cleanup now shown) m =
      Agrees-Frame (Frame-complete_scan k own at token scanned cleanup now shown m)
  Agrees-act (view k token) m = Agrees-Frame (Frame-mark_viewed k token m)
  Agrees-act (confirm k token) m = Agrees-Frame (Frame-confirm_review k token m)
  Agrees-act (approve k) m = Agrees-Frame (Frame-confirm_token k (get k m.viewed_tokens) m)
  Agrees-act (observe_cleanup k c source at shown) m =
      Agrees-Frame (Frame-publish_cleanup k c source at shown m)
  Agrees-act (health k running l) m = Agrees-Frame (Frame-start_health k running l m)
  Agrees-act (health_answer k own a at) m = Agrees-Frame (Frame-finish_health k own _ at m)
  Agrees-act (restore k) m = Agrees-Frame (Frame-begin_restore k m)
  Agrees-act (restore_submit k) m = Agrees-Frame (Frame-invalidate_restore_target k m)
  Agrees-act (restore_end k) m = Agrees-Frame (Frame-end_restore k m)
  Agrees-act (discover current) m = Agrees-prune current m
  Agrees-act (running_targets running) m = Agrees-Frame (Frame-invalidate_non_running running m)
  Agrees-act (helper v) m = Agrees-Frame (Frame-helper v m)
  Agrees-act (task_done t) m = λ a. record { updates = a.updates; cleanups = a.cleanups }
  Agrees-act (report_update k r) m = λ a. record { updates = a.updates; cleanups = a.cleanups }
  Agrees-act (report_cleanup k r) m = λ a. record { updates = a.updates; cleanups = a.cleanups }
