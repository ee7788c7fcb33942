-- ===== src/Manager/Exclusion/Moves.antt =====
-- The operations of `PackageManager` that make nothing active
-- (custom_components/hubinet_ops/packages/manager.py).
use hubinet_ops_next.Prelude.{
  ℕ, ◌≤◌, ◌≡◌, Bool, true, false, ◌&&◌, Option, none, some, List, arith, Text, if◌then◌else◌, refl,
  Bool-cases, inl, inr,
}
use hubinet_ops_next.Dict.{Key, Dict, get, put, pop, count_at}
use hubinet_ops_next.Dict.Laws.{count_at-put, count_at-pop}
use hubinet_ops_next.Prelude.Results.{Answer, returned, raised, unexpected}
use hubinet_ops_next.Models.{
  ScanRecord, HealthRecord, HealthOutcome, scan_running, ScanError, ScanResult, UpdateError,
  RemovablePackage,
}
use hubinet_ops_next.Manager.State.{
  Notice, notify, Ref, Manager, scan_is_running, update_is_running, health_is_running, set_record,
  new_ref, is_own, invalidate_cleanup, invalidate_health,
}
use hubinet_ops_next.Manager.Scan.{
  finish_scan, publish_cleanup, scan_outcome, complete_scan, observed_candidates, confirm_review,
  mark_viewed, confirm_viewed_review, has_plan, confirm_record, confirm_token, token_is,
}
use hubinet_ops_next.Manager.Health.{
  Launch, refused, suspended, completed, finish_health, withdraw_claim, launch_health,
  completed_health, start_claimed_health,
}
use hubinet_ops_next.Manager.Restore.{dismiss_if, cleanup_invalidated_if}
use hubinet_ops_next.Manager.Exclusion.{
  restores, scans, updates, cleanups, healths, Quiet, Quiet-refl, Quiet-trans,
}

-- A write of a value that does not pass the test adds nothing to the count.
count_at-put_le {ℓ} :
    {V : Type ℓ} (n : ℕ) (test : V → Bool) (k : Key) (v : V) (d : Dict V)
    → test v ≡ false
    → count_at n test (put k v d) ≤ count_at n test d
count_at-put_le n test k v d h = ground (arith, count_at-put n test k v d)

-- Whatever leaves the four dictionaries and the reservations alone is quiet.
module _ {m m' : Manager} where
  pub Quiet-same :
      m'.restore_reserved ≡ m.restore_reserved
      → m'.records ≡ m.records
      → m'.update_records ≡ m.update_records
      → m'.cleanup_records ≡ m.cleanup_records
      → m'.health_records ≡ m.health_records
      → Quiet m m'
  unfolding restores scans updates cleanups healths
  Quiet-same a b c d e = record {
    restores_le = λ v. rw a (omega arith);
    scans_le = λ v. rw b (omega arith);
    updates_le = λ v. rw c (omega arith);
    cleanups_le = λ v. rw d (omega arith);
    healths_le = λ v. rw e (omega arith);
  }

  -- So is what drops one key from each dictionary.
  pub Quiet-pop :
      (k : Key)
      → m'.restore_reserved ≡ m.restore_reserved
      → m'.records ≡ pop k m.records
      → m'.update_records ≡ pop k m.update_records
      → m'.cleanup_records ≡ pop k m.cleanup_records
      → m'.health_records ≡ pop k m.health_records
      → Quiet m m'
  unfolding restores scans updates cleanups healths
  Quiet-pop k a b c d e = record {
    restores_le = λ v. rw a (omega arith);
    scans_le = λ v. rw b (count_at-pop v scan_is_running k m.records);
    updates_le = λ v. rw c (count_at-pop v update_is_running k m.update_records);
    cleanups_le = λ v. rw d (count_at-pop v update_is_running k m.cleanup_records);
    healths_le = λ v. rw e (count_at-pop v health_is_running k m.health_records);
  }

pub Quiet-notify : (n : Notice) (m : Manager) → Quiet m (notify n m)
Quiet-notify n m = Quiet-same refl refl refl refl refl

pub Quiet-dismiss_if : (b : Bool) (k : Key) (m : Manager) → Quiet m (dismiss_if b k m)
Quiet-dismiss_if true k m = Quiet-notify (Notice.review_dismissed k) m
Quiet-dismiss_if false k m = Quiet-refl m

pub Quiet-cleanup_invalidated_if :
    (b : Bool) (k : Key) (m : Manager) → Quiet m (cleanup_invalidated_if b k m)
Quiet-cleanup_invalidated_if true k m = Quiet-notify (Notice.cleanup_invalidated k) m
Quiet-cleanup_invalidated_if false k m = Quiet-refl m

pub Quiet-set_record :
    (k : Key) (r : ScanRecord) (m : Manager)
    → scan_running r.status ≡ false
    → Quiet m (set_record k r m)
unfolding set_record restores scans updates cleanups healths
Quiet-set_record k r m h = record {
  restores_le = λ v. omega arith;
  scans_le = λ v. count_at-put_le v scan_is_running k (new_ref r m) m.records h;
  updates_le = λ v. omega arith;
  cleanups_le = λ v. omega arith;
  healths_le = λ v. omega arith;
}

pub Quiet-invalidate_health : (k : Key) (m : Manager) → Quiet m (invalidate_health k m)
unfolding invalidate_health restores scans updates cleanups healths
Quiet-invalidate_health k m = record {
  restores_le = λ v. omega arith;
  scans_le = λ v. omega arith;
  updates_le = λ v. omega arith;
  cleanups_le = λ v. omega arith;
  healths_le = λ v. count_at-pop v health_is_running k m.health_records;
}

pub Quiet-invalidate_cleanup : (k : Key) (m : Manager) → Quiet m (invalidate_cleanup k m)
unfolding invalidate_cleanup
Quiet-invalidate_cleanup k m = Quiet-same refl refl refl refl refl

pub Quiet-finish_scan :
    (k : Key) (own : Ref ScanRecord) (r : ScanRecord) (m : Manager)
    → scan_running r.status ≡ false
    → Quiet m (finish_scan k own r m)
unfolding finish_scan
Quiet-finish_scan k own r m h = elim (Bool-cases (is_own (get k m.records) own)) [
  | inl e ↦ rw e (
      Quiet-trans (Quiet-same refl refl refl refl refl)
        (Quiet-set_record k r (record m { tasks = pop k m.tasks }) h))
  | inr e ↦ rw e (Quiet-refl m)
]

pub Quiet-publish_cleanup :
    (k : Key) (c : Option (List RemovablePackage)) (source : Text) (at : ℕ) (shown : Bool)
    (m : Manager)
    → Quiet m (publish_cleanup k c source at shown m)
unfolding publish_cleanup
Quiet-publish_cleanup k c source at shown m =
    Quiet-same (ground arith) (ground arith) (ground arith) (ground arith) (ground arith)

scan_outcome_stopped :
    (at : ℕ) (token : Text) (a : Answer ScanError ScanResult)
    → scan_running (scan_outcome at token a).status ≡ false
unfolding scan_outcome
scan_outcome_stopped at token (returned r) = refl
scan_outcome_stopped at token (raised e) = refl
scan_outcome_stopped at token unexpected = refl

pub Quiet-if : {m a b : Manager} (c : Bool) → Quiet m a → Quiet m b → Quiet m (if c then a else b)
Quiet-if true p q = p
Quiet-if false p q = q

pub Quiet-complete_scan :
    (k : Key) (own : Ref ScanRecord) (at : ℕ) (token : Text) (scanned : Answer ScanError ScanResult)
    (cleanup : Answer UpdateError (List RemovablePackage)) (now : ℕ) (shown : Bool) (m : Manager)
    → Quiet m (complete_scan k own at token scanned cleanup now shown m)
unfolding complete_scan
Quiet-complete_scan k own at token scanned cleanup now shown m =
    Quiet-trans
      (Quiet-if _ (Quiet-publish_cleanup k (observed_candidates cleanup) _ now shown m)
        (Quiet-refl m))
      (Quiet-finish_scan k own _ _ (scan_outcome_stopped at token scanned))

has_plan_stopped : (r : ScanRecord) → has_plan r ≡ true → scan_running r.status ≡ false
unfolding has_plan
has_plan_stopped r h = ground arith

Quiet-confirm_record :
    (k : Key) (token : Text) (o : Option (Ref ScanRecord)) (m : Manager)
    → Quiet m (confirm_record k token o m).1
unfolding confirm_record
Quiet-confirm_record k token none m = Quiet-refl m
Quiet-confirm_record k token (some r) m =
    elim (Bool-cases (has_plan r.value && token_is r.value.token token)) [
      | inl e ↦ rw e (
          Quiet-trans
            (Quiet-set_record k (record r.value { reviewed = true }) m
              (has_plan_stopped r.value (ground arith)))
            (Quiet-same refl refl refl refl refl))
      | inr e ↦ rw e (Quiet-refl m)
    ]

pub Quiet-confirm_review :
    (k : Key) (token : Text) (m : Manager) → Quiet m (confirm_review k token m).1
unfolding confirm_review
Quiet-confirm_review k token m = Quiet-confirm_record k token (get k m.records) m

pub Quiet-mark_viewed : (k : Key) (token : Text) (m : Manager) → Quiet m (mark_viewed k token m).1
unfolding mark_viewed
Quiet-mark_viewed k token m =
    Quiet-same (ground arith) (ground arith) (ground arith) (ground arith) (ground arith)

Quiet-confirm_token : (k : Key) (o : Option Text) (m : Manager) → Quiet m (confirm_token k o m).1
unfolding confirm_token
Quiet-confirm_token k none m = Quiet-refl m
Quiet-confirm_token k (some t) m = Quiet-confirm_review k t m

pub Quiet-confirm_viewed_review : (k : Key) (m : Manager) → Quiet m (confirm_viewed_review k m).1
unfolding confirm_viewed_review
Quiet-confirm_viewed_review k m = Quiet-confirm_token k (get k m.viewed_tokens) m

pub Quiet-finish_health :
    (k : Key) (own : Ref HealthRecord) (o : HealthOutcome) (at : ℕ) (m : Manager)
    → Quiet m (finish_health k own o at m)
unfolding finish_health restores scans updates cleanups healths
Quiet-finish_health k own o at m = elim (Bool-cases (is_own (get k m.health_records) own)) [
  | inl e ↦ rw e (record {
    restores_le = λ v. omega arith;
    scans_le = λ v. omega arith;
    updates_le = λ v. omega arith;
    cleanups_le = λ v. omega arith;
    healths_le = λ v.
        count_at-put_le v health_is_running k (new_ref (completed_health own.value.source o at) m)
          m.health_records refl;
  })
  | inr e ↦ rw e (Quiet-refl m)
]

pub Quiet-withdraw_claim :
    (k : Key) (own : Ref HealthRecord) (m : Manager) → Quiet m (withdraw_claim k own m)
unfolding withdraw_claim restores scans updates cleanups healths
Quiet-withdraw_claim k own m = elim (Bool-cases (is_own (get k m.health_records) own)) [
  | inl e ↦ rw e (record {
    restores_le = λ v. omega arith;
    scans_le = λ v. omega arith;
    updates_le = λ v. omega arith;
    cleanups_le = λ v. omega arith;
    healths_le = λ v. count_at-pop v health_is_running k m.health_records;
  })
  | inr e ↦ rw e (Quiet-refl m)
]

pub Quiet-launch_health :
    (k : Key) (own : Ref HealthRecord) (l : Launch) (m : Manager)
    → Quiet m (launch_health k own l m)
unfolding launch_health
Quiet-launch_health k own refused m = Quiet-withdraw_claim k own m
Quiet-launch_health k own suspended m = Quiet-same refl refl refl refl refl
Quiet-launch_health k own (completed o at) m = Quiet-finish_health k own o at m

pub Quiet-start_claimed_health :
    (k : Key) (claim : Option (Ref HealthRecord)) (l : Launch) (m : Manager)
    → Quiet m (start_claimed_health k claim l m)
unfolding start_claimed_health
Quiet-start_claimed_health k none l m = Quiet-refl m
Quiet-start_claimed_health k (some own) l m =
    Quiet-if _ (Quiet-launch_health k own l m) (Quiet-refl m)
