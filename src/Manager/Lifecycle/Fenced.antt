-- ===== src/Manager/Lifecycle/Fenced.antt =====
-- Fenced targets hold no cleanup evidence in whatever state a `PackageManager` can come to
-- (custom_components/hubinet_ops/packages/manager.py).
use hubinet_ops_next.Prelude.{
  ℕ, ◌≡◌, refl, true, Bool, false, not, ◌&&◌, ◌||◌, Option, none, some, List, [], ◌∷◌, arith,
  is_empty,
}
use hubinet_ops_next.Dict.{Key, get, pop, member}
use hubinet_ops_next.Dict.Laws.{get-pop}
use hubinet_ops_next.Models.{UpdateRecord, HealthSource, CleanupEvidence, update_success}
use hubinet_ops_next.Manager.State.{
  Ref, Manager, is_own, set_record, set_update_record, set_cleanup_record, invalidate_cleanup,
  invalidate_health, cancel, restore_owns, package_busy, health_claim_blocked,
}
use hubinet_ops_next.Manager.Health.{Launch, try_claim_health, complete_health}
use hubinet_ops_next.Manager.Scan.{confirm_viewed_review}
use hubinet_ops_next.Manager.Update.{
  PlanRow, begin_update, begin_autoremove, start_update, accept_update, retire_evidence,
  start_autoremove, accept_autoremove, finish_update, finish_cleanup, claim_before_publish,
  reviewed_plan,
}
use hubinet_ops_next.Manager.Restore.{
  begin_restore, invalidate_restore_target, end_restore, dismiss_if, cleanup_invalidated_if,
  had_review, had_cleanup,
}
use hubinet_ops_next.Manager.Prune.{
  prune, prune_all, prune_target, invalidate_target, invalidate_all, invalidate_non_running,
  difference, known_targets, evidence_targets, sync_helper_version, set_helper_version,
}
use hubinet_ops_next.Manager.Fence.{
  IsFenced, IsFenced-same, IsFenced-if, Guarded, start_scan-IsFenced, complete_scan-IsFenced,
  publish_cleanup-IsFenced, confirm_review-IsFenced, confirm_token-IsFenced, mark_viewed-IsFenced,
  finish_health-IsFenced, start_health-IsFenced, start_claimed-IsFenced, claim-IsFenced,
  drop_evidence-IsFenced, prune_target-IsFenced,
}
use hubinet_ops_next.Manager.Lifecycle.{
  Act, act, scan, scan_answer, view, confirm, approve, observe_cleanup, health, health_answer,
  restore, restore_submit, restore_end, discover, running_targets, helper, task_done, report_update,
  report_cleanup, System, Step, acted, update_started, update_finished, autoremove_started,
  cleanup_finished, Reachable, made, after,
}

-- The evidence of one target is taken away and no fence changes.
IsFenced-pop :
    (k : Key) {m m' : Manager}
    → m'.fenced_evidence ≡ m.fenced_evidence
    → m'.cleanup_evidence ≡ pop k m.cleanup_evidence
    → IsFenced m
    → IsFenced m'
IsFenced-pop k {m} p q f = record {
  clear = λ j h. rw q (ground (arith, get-pop k j m.cleanup_evidence, f.clear j (rw p at h)));
}

accept_update-IsFenced :
    (k : Key) (at : ℕ) (skip : Bool) (m : Manager)
    → IsFenced m
    → IsFenced (accept_update k at skip m)
unfolding accept_update retire_evidence set_record set_update_record invalidate_health
    invalidate_cleanup
accept_update-IsFenced k at skip m = IsFenced-pop k refl refl

begin_update-IsFenced :
    (k : Key) (at : ℕ) (skip : Bool) (m : Manager) (o : Option (List PlanRow))
    → IsFenced m
    → IsFenced (begin_update k at skip m o).1
begin_update-IsFenced k at skip m none f = f
begin_update-IsFenced k at skip m (some plan) f = accept_update-IsFenced k at skip m f

start_update-IsFenced :
    (k : Key) (running permission skip : Bool) (at : ℕ) (m : Manager)
    → IsFenced m
    → IsFenced (start_update k running permission skip at m).1
unfolding start_update
start_update-IsFenced k running permission skip at m f =
    Guarded (not m.configured || not m.has_proxmox) _ _ f (
      Guarded (not running) _ _ f (
        Guarded (not skip && not permission) _ _ f (
          Guarded (restore_owns k.vmid m) _ _ f (
            Guarded (package_busy k.vmid m) _ _ f
              (begin_update-IsFenced k at skip m (reviewed_plan (get k m.records)) f)))))

accept_autoremove-IsFenced :
    (k : Key) (at : ℕ) (m : Manager) → IsFenced m → IsFenced (accept_autoremove k at m)
unfolding accept_autoremove set_cleanup_record invalidate_health invalidate_cleanup
accept_autoremove-IsFenced k at m = IsFenced-pop k refl refl

begin_autoremove-IsFenced :
    (k : Key) (at : ℕ) (m : Manager) (o : Option CleanupEvidence)
    → IsFenced m
    → IsFenced (begin_autoremove k at m o).1
begin_autoremove-IsFenced k at m none f = f
begin_autoremove-IsFenced k at m (some x) f =
    Guarded (is_empty x.candidates) _ _ f (accept_autoremove-IsFenced k at m f)

start_autoremove-IsFenced :
    (k : Key) (running permission : Bool) (at : ℕ) (m : Manager)
    → IsFenced m
    → IsFenced (start_autoremove k running permission at m).1
unfolding start_autoremove
start_autoremove-IsFenced k running permission at m f =
    Guarded (not m.configured || not m.has_proxmox) _ _ f (
      Guarded (not running) _ _ f (
        Guarded (not permission) _ _ f (
          Guarded (restore_owns k.vmid m) _ _ f (
            Guarded (package_busy k.vmid m) _ _ f
              (begin_autoremove-IsFenced k at m (get k m.cleanup_evidence) f)))))

try_claim-IsFenced :
    (k : Key) (source : HealthSource) (m : Manager)
    → IsFenced m
    → IsFenced (try_claim_health k source m).1
unfolding try_claim_health
try_claim-IsFenced k source m f =
    Guarded (health_claim_blocked k.vmid m) _ _ f (claim-IsFenced k source m f)

before_publish-IsFenced :
    (claim : Bool) (k : Key) (source : HealthSource) (r : UpdateRecord) (m : Manager)
    → IsFenced m
    → IsFenced (claim_before_publish claim k source r m).1
before_publish-IsFenced claim k source r m f =
    Guarded (claim && update_success r.status) _ _ (try_claim-IsFenced k source m f) f

module _ (k : Key) (own : Ref UpdateRecord) (outcome : UpdateRecord) (claim : Bool) (l : Launch)
    (m : Manager) where
  finish_update-IsFenced : IsFenced m → IsFenced (finish_update k own outcome claim l m).1
  unfolding finish_update set_update_record
  finish_update-IsFenced f =
      let m0 = record m { update_tasks = pop k m.update_tasks } in
      let c = claim_before_publish claim k HealthSource.update outcome m0 in
      let b =
        before_publish-IsFenced claim k HealthSource.update outcome m0
          (IsFenced-same refl refl f) in
      Guarded (is_own (get k m.update_records) own) _ _
        (start_claimed-IsFenced k c.0 l _ (IsFenced-same refl refl b)) f

  finish_cleanup-IsFenced : IsFenced m → IsFenced (finish_cleanup k own outcome claim l m).1
  unfolding finish_cleanup set_cleanup_record
  finish_cleanup-IsFenced f =
      let m0 = record m { cleanup_tasks = pop k m.cleanup_tasks } in
      let c = claim_before_publish claim k HealthSource.autoremove outcome m0 in
      let b =
        before_publish-IsFenced claim k HealthSource.autoremove outcome m0
          (IsFenced-same refl refl f) in
      Guarded (is_own (get k m.cleanup_records) own) _ _
        (start_claimed-IsFenced k c.0 l _ (IsFenced-same refl refl b)) f

presented-IsFenced :
    (a b : Bool) (k : Key) (m : Manager)
    → IsFenced m
    → IsFenced (cleanup_invalidated_if a k (dismiss_if b k m))
presented-IsFenced a b k m = IsFenced-same (ground arith) (ground arith)

submit-IsFenced : (k : Key) (m : Manager) → IsFenced m → IsFenced (invalidate_restore_target k m).1
unfolding invalidate_restore_target
submit-IsFenced k m f =
    Guarded (member k m.restore_reserved) _ _
      (IsFenced-same refl refl
        (presented-IsFenced (had_cleanup k m) (had_review k m) k _ (drop_evidence-IsFenced k m f)))
      f

invalidate_target-IsFenced : (k : Key) (m : Manager) → IsFenced m → IsFenced (invalidate_target k m)
unfolding invalidate_target cancel
invalidate_target-IsFenced k m f =
    presented-IsFenced (had_cleanup k m) (had_review k m) k _
      (IsFenced-same refl refl (drop_evidence-IsFenced k m f))

invalidate_all-IsFenced :
    (ks : List Key) (m : Manager) (b : Bool) → IsFenced m → IsFenced (invalidate_all ks m b).0
unfolding invalidate_all
invalidate_all-IsFenced [] m b f = f
invalidate_all-IsFenced (k ∷ ks) m b f =
    invalidate_all-IsFenced ks (invalidate_target k m) _ (invalidate_target-IsFenced k m f)

non_running-IsFenced :
    (running : List Key) (m : Manager) → IsFenced m → IsFenced (invalidate_non_running running m)
unfolding invalidate_non_running
non_running-IsFenced running m f =
    let r = invalidate_all (difference (evidence_targets m) running) m false in
    let g = invalidate_all-IsFenced (difference (evidence_targets m) running) m false f in
    IsFenced-if r.1 (IsFenced-same refl refl g) g

prune_all-IsFenced : (ks : List Key) (m : Manager) → IsFenced m → IsFenced (prune_all ks m)
unfolding prune_all
prune_all-IsFenced [] m f = f
prune_all-IsFenced (k ∷ ks) m f =
    prune_all-IsFenced ks (prune_target k m) (prune_target-IsFenced k m f)

prune-IsFenced : (current : List Key) (m : Manager) → IsFenced m → IsFenced (prune current m)
unfolding prune
prune-IsFenced current m f =
    IsFenced-if (is_empty (difference (known_targets m) current)) f
      (IsFenced-same refl refl (prune_all-IsFenced (difference (known_targets m) current) m f))

restores-IsFenced :
    (k : Key) (m : Manager)
    → IsFenced m
    → IsFenced (begin_restore k m).1 × IsFenced (end_restore k m)
unfolding begin_restore end_restore
restores-IsFenced k m f =
    (IsFenced-same (ground arith) (ground arith) f, IsFenced-same (ground arith) (ground arith) f)

helper-IsFenced : (v : Option ℕ) (m : Manager) → IsFenced m → IsFenced (sync_helper_version v m)
unfolding sync_helper_version set_helper_version
helper-IsFenced v m = IsFenced-same (ground arith) (ground arith)

act-IsFenced : (a : Act) (m : Manager) → IsFenced m → IsFenced (act a m)
unfolding act complete_health confirm_viewed_review
act-IsFenced (scan k running at) m = start_scan-IsFenced k running at m
act-IsFenced (scan_answer k own at token scanned cleanup now shown) m =
    complete_scan-IsFenced k own at token scanned cleanup now shown m
act-IsFenced (view k token) m = mark_viewed-IsFenced k token m
act-IsFenced (confirm k token) m = confirm_review-IsFenced k token m
act-IsFenced (approve k) m = confirm_token-IsFenced k (get k m.viewed_tokens) m
act-IsFenced (observe_cleanup k c source at shown) m =
    publish_cleanup-IsFenced k c source at shown m
act-IsFenced (health k running l) m = start_health-IsFenced k running l m
act-IsFenced (health_answer k own a at) m = finish_health-IsFenced k own _ at m
act-IsFenced (restore k) m = λ f. (restores-IsFenced k m f).0
act-IsFenced (restore_submit k) m = submit-IsFenced k m
act-IsFenced (restore_end k) m = λ f. (restores-IsFenced k m f).1
act-IsFenced (discover current) m = prune-IsFenced current m
act-IsFenced (running_targets running) m = non_running-IsFenced running m
act-IsFenced (helper v) m = helper-IsFenced v m
act-IsFenced (task_done t) m = IsFenced-same refl refl
act-IsFenced (report_update k r) m = IsFenced-same refl refl
act-IsFenced (report_cleanup k r) m = IsFenced-same refl refl

Step-IsFenced : {s t : System} → Step s t → IsFenced s.manager → IsFenced t.manager
Step-IsFenced {s} (acted a p) f = rw p (act-IsFenced a s.manager f)
Step-IsFenced {s} (update_started k running permission skip at x done p) f =
    rw p (start_update-IsFenced k running permission skip at s.manager f)
Step-IsFenced {s} (update_finished k own outcome claim l i stopped p) f =
    rw p (finish_update-IsFenced k own outcome claim l s.manager f)
Step-IsFenced {s} (autoremove_started k running permission at x done p) f =
    rw p (start_autoremove-IsFenced k running permission at s.manager f)
Step-IsFenced {s} (cleanup_finished k own outcome claim l i stopped p) f =
    rw p (finish_cleanup-IsFenced k own outcome claim l s.manager f)

pub Reachable-IsFenced : {c p : Bool} {s : System} → Reachable c p s → IsFenced s.manager
unfolding member
Reachable-IsFenced made = record { clear = λ k h. cc }
Reachable-IsFenced (after r st) = Step-IsFenced st (Reachable-IsFenced r)

-- In every state that a manager can come to, a target that is fenced, because its Restore was
-- submitted or it was seen not running and no scan has been accepted since, holds no cleanup
-- evidence: no late answer brings it back.
pub fenced_clear :
    {c p : Bool} {s : System}
    → Reachable c p s
    → (k : Key) → member k s.manager.fenced_evidence ≡ true
    → get k s.manager.cleanup_evidence ≡ none
fenced_clear r = (Reachable-IsFenced r).clear
