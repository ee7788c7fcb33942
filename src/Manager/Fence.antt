-- ===== src/Manager/Fence.antt =====
-- Fenced targets of `PackageManager`: after a Restore was submitted, or a guest was seen not
-- running, late cleanup evidence is not stored until a new scan is accepted
-- (custom_components/hubinet_ops/packages/manager.py).
use hubinet_ops_next.Prelude.{
  ℕ, ◌≡◌, refl, inl, inr, Bool, true, false, not, ◌&&◌, Option, none, some, List, [], ◌∷◌, arith,
  Text, if◌then◌else◌, codes,
}
use hubinet_ops_next.Prelude.Results.{Answer}
use hubinet_ops_next.Dict.{Key, key_eq_iff, get, pop, member}
use hubinet_ops_next.Dict.Laws.{get-put, get-pop, member-add, member-discard}
use hubinet_ops_next.Models.{
  ScanRecord, ScanResult, ScanError, UpdateError, HealthRecord, HealthOutcome, RemovablePackage,
  HealthSource, scan_success,
}
use hubinet_ops_next.Manager.State.{
  Ref, Manager, is_own, set_record, invalidate_cleanup, invalidate_health, claim_health_record,
  restore_owns, package_busy,
}
use hubinet_ops_next.Manager.Scan.{
  start_scan, accept_scan, finish_scan, publish_cleanup, complete_scan, confirm_review,
  confirm_token, mark_viewed, scan_outcome, observed_candidates,
}
use hubinet_ops_next.Manager.Accept.{MayScan-cases, start_scan_iff}
use hubinet_ops_next.Manager.Health.{
  Launch, refused, suspended, completed, finish_health, withdraw_claim, launch_health, start_health,
  start_claimed_health,
}
use hubinet_ops_next.Manager.Restore.{drop_evidence}
use hubinet_ops_next.Manager.Prune.{prune_target}

pub record IsFenced (m : Manager) : Type 0 where
  pub clear : (k : Key) → member k m.fenced_evidence ≡ true → get k m.cleanup_evidence ≡ none

pub IsFenced-same :
    {m m' : Manager}
    → m'.fenced_evidence ≡ m.fenced_evidence
    → m'.cleanup_evidence ≡ m.cleanup_evidence
    → IsFenced m
    → IsFenced m'
IsFenced-same p q f = record { clear = λ k h. rw q (f.clear k (rw p at h)) }

pub IsFenced-if :
    {a b : Manager} (c : Bool) → IsFenced a → IsFenced b → IsFenced (if c then a else b)
IsFenced-if true p q = p
IsFenced-if false p q = q

pub Guarded {ℓ} :
    {A : Type ℓ} (b : Bool) (x y : A × Manager)
    → IsFenced x.1
    → IsFenced y.1
    → IsFenced (if b then x else y).1
Guarded true x y p q = p
Guarded false x y p q = q

accept_scan-IsFenced : (k : Key) (at : ℕ) (m : Manager) → IsFenced m → IsFenced (accept_scan k at m)
unfolding accept_scan set_record invalidate_cleanup
accept_scan-IsFenced k at m f = record {
  clear = λ j h.
      ground
        (arith, member-discard k j m.fenced_evidence, get-pop k j m.cleanup_evidence, f.clear j);
}

pub publish_cleanup-IsFenced :
    (k : Key) (c : Option (List RemovablePackage)) (source : Text) (at : ℕ) (shown : Bool)
    (m : Manager)
    → IsFenced m
    → IsFenced (publish_cleanup k c source at shown m)
unfolding publish_cleanup
publish_cleanup-IsFenced k none source at shown m f = record {
  clear = λ j h. ground (arith, get-pop k j m.cleanup_evidence, f.clear j);
}
publish_cleanup-IsFenced k (some []) source at shown m f = record {
  clear = λ j h. ground (
    arith,
    get-pop k j m.cleanup_evidence,
    f.clear j,
    key_eq_iff k j,
    get-put k j (record { candidates = []; observed_at = at }) (pop k m.cleanup_evidence),
  );
}
publish_cleanup-IsFenced k (some (p ∷ ps)) source at shown m f = record {
  clear = λ j h. ground (
    arith,
    get-pop k j m.cleanup_evidence,
    f.clear j,
    key_eq_iff k j,
    get-put k j (record { candidates = p ∷ ps; observed_at = at }) (pop k m.cleanup_evidence),
  );
}

finish_scan-IsFenced :
    (k : Key) (own : Ref ScanRecord) (r : ScanRecord) (m : Manager)
    → IsFenced m
    → IsFenced (finish_scan k own r m)
unfolding finish_scan set_record
finish_scan-IsFenced k own r m = IsFenced-same (ground arith) (ground arith)

-- Dropping the evidence of a target and fencing it.
pub drop_evidence-IsFenced : (k : Key) (m : Manager) → IsFenced m → IsFenced (drop_evidence k m)
unfolding drop_evidence invalidate_health
drop_evidence-IsFenced k m f = record {
  clear = λ j h.
      ground (arith, member-add k j m.fenced_evidence, get-pop k j m.cleanup_evidence, f.clear j);
}

pub prune_target-IsFenced : (k : Key) (m : Manager) → IsFenced m → IsFenced (prune_target k m)
unfolding prune_target invalidate_health
prune_target-IsFenced k m f = record {
  clear = λ j h.
      ground
        (arith, member-discard k j m.fenced_evidence, get-pop k j m.cleanup_evidence, f.clear j);
}

pub complete_scan-IsFenced :
    (k : Key) (own : Ref ScanRecord) (at : ℕ) (token : Text) (a : Answer ScanError ScanResult)
    (c : Answer UpdateError (List RemovablePackage)) (now : ℕ) (shown : Bool) (m : Manager)
    → IsFenced m
    → IsFenced (complete_scan k own at token a c now shown m)
unfolding complete_scan
complete_scan-IsFenced k own at token a c now shown m f =
    finish_scan-IsFenced k own (scan_outcome at token a) _ (
      IsFenced-if (scan_success (scan_outcome at token a).status && is_own (get k m.records) own)
        (publish_cleanup-IsFenced k (observed_candidates c) (codes "scan") now shown m f) f)

pub start_scan-IsFenced :
    (k : Key) (running : Bool) (at : ℕ) (m : Manager)
    → IsFenced m
    → IsFenced (start_scan k running at m).1
start_scan-IsFenced k running at m f = elim (MayScan-cases k running m) [
  | inl may ↦ rw ((start_scan_iff k running at m).1 may) (accept_scan-IsFenced k at m f)
  | inr may ↦ rw ((start_scan_iff k running at m).2 may) f
]

pub confirm_review-IsFenced :
    (k : Key) (token : Text) (m : Manager) → IsFenced m → IsFenced (confirm_review k token m).1
unfolding confirm_review set_record
confirm_review-IsFenced k token m = IsFenced-same (ground arith) (ground arith)

pub confirm_token-IsFenced :
    (k : Key) (o : Option Text) (m : Manager) → IsFenced m → IsFenced (confirm_token k o m).1
unfolding confirm_token
confirm_token-IsFenced k none m f = f
confirm_token-IsFenced k (some t) m f = confirm_review-IsFenced k t m f

pub mark_viewed-IsFenced :
    (k : Key) (token : Text) (m : Manager) → IsFenced m → IsFenced (mark_viewed k token m).1
unfolding mark_viewed
mark_viewed-IsFenced k token m = IsFenced-same (ground arith) (ground arith)

pub finish_health-IsFenced :
    (k : Key) (own : Ref HealthRecord) (o : HealthOutcome) (at : ℕ) (m : Manager)
    → IsFenced m
    → IsFenced (finish_health k own o at m)
unfolding finish_health
finish_health-IsFenced k own o at m = IsFenced-same (ground arith) (ground arith)

launch_health-IsFenced :
    (k : Key) (own : Ref HealthRecord) (l : Launch) (m : Manager)
    → IsFenced m
    → IsFenced (launch_health k own l m)
unfolding launch_health withdraw_claim
launch_health-IsFenced k own refused m = IsFenced-same (ground arith) (ground arith)
launch_health-IsFenced k own suspended m = IsFenced-same refl refl
launch_health-IsFenced k own (completed o at) m = finish_health-IsFenced k own o at m

pub claim-IsFenced :
    (k : Key) (source : HealthSource) (m : Manager)
    → IsFenced m
    → IsFenced (claim_health_record k source m)
unfolding claim_health_record
claim-IsFenced k source m = IsFenced-same refl refl

pub start_health-IsFenced :
    (k : Key) (running : Bool) (l : Launch) (m : Manager)
    → IsFenced m
    → IsFenced (start_health k running l m).1
unfolding start_health
start_health-IsFenced k running l m f = Guarded (not m.configured) _ _ f (
    Guarded (not running) _ _ f (
      Guarded (restore_owns k.vmid m) _ _ f (
        Guarded (package_busy k.vmid m) _ _ f
          (launch_health-IsFenced k _ l _ (claim-IsFenced k HealthSource.manual m f)))))

pub start_claimed-IsFenced :
    (k : Key) (claim : Option (Ref HealthRecord)) (l : Launch) (m : Manager)
    → IsFenced m
    → IsFenced (start_claimed_health k claim l m)
unfolding start_claimed_health
start_claimed-IsFenced k none l m f = f
start_claimed-IsFenced k (some own) l m f =
    IsFenced-if (is_own (get k m.health_records) own) (launch_health-IsFenced k own l m f) f
