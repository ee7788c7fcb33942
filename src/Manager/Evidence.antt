-- ===== src/Manager/Evidence.antt =====
-- Evidence and review in `PackageManager`: late answers, fenced targets and the tokens of a review
-- (custom_components/hubinet_ops/packages/manager.py).
use hubinet_ops_next.Prelude.{
  ℕ, ◌≡◌, ◌≢◌, ◌↔◌, refl, inl, inr, Bool, true, false, ◌&&◌, Option, none, some, List, arith, Text,
  text_eq_iff, codes, if◌then◌else◌, Bool-cases, Option-cases,
}
use hubinet_ops_next.Prelude.Results.{Answer, returned, raised, unexpected}
use hubinet_ops_next.Dict.{Key, get}
use hubinet_ops_next.Dict.Laws.{get-put, get-pop, key_eq_refl}
use hubinet_ops_next.Models.{
  ScanRecord, ScanResult, ScanError, UpdateError, RemovablePackage, scan_success, no_scan,
}
use hubinet_ops_next.Manager.State.{
  Ref, Manager, new_ref, is_own, set_record, invalidate_cleanup, invalidate_health,
  set_update_record,
}
use hubinet_ops_next.Manager.Scan.{
  finish_scan, publish_cleanup, complete_scan, confirm_review, confirm_viewed_review, has_plan,
  scan_outcome, observed_candidates,
}
use hubinet_ops_next.Manager.Update.{accept_update, retire_evidence, reviewed_plan, package_plan}

pub confirm_review_cases :
    (k : Key) (token : Text) (m : Manager)
    → (((confirm_review k token m).0 ≡ true) ↔ (
        (r : Ref ScanRecord) × (get k m.records ≡ some r)
        × (has_plan r.value ≡ true)
        × (r.value.token ≡ some token)))
      × ((confirm_review k token m).0 ≡ false → (confirm_review k token m).1 ≡ m)
unfolding confirm_review
confirm_review_cases k token m = elim (Option-cases (get k m.records)) [
  | inl e ↦ ground (arith, e)
  | inr (r, e) ↦ elim (Option-cases r.value.token) [
    | inl t ↦ ground (arith, e, t)
    | inr (u, t) ↦ ground (arith, e, t, text_eq_iff u token)
  ]
]

-- A review is confirmed exactly when the stored scan is successful, has packages and carries this
-- very token.
pub confirm_review_iff :
    (k : Key) (token : Text) (m : Manager)
    → ((confirm_review k token m).0 ≡ true) ↔ (
        (r : Ref ScanRecord) × (get k m.records ≡ some r)
        × (has_plan r.value ≡ true)
        × (r.value.token ≡ some token))
confirm_review_iff k token m = (confirm_review_cases k token m).0

-- A confirmed review makes the packages of the scan that was stored the plan of the next Update.
pub confirm_review_plan :
    (k : Key) (token : Text) (m : Manager) (r : Ref ScanRecord) (x : ScanResult)
    → get k m.records ≡ some r
    → r.value.result ≡ some x
    → (confirm_review k token m).0 ≡ true
    → reviewed_plan (get k (confirm_review k token m).1.records) ≡ some (package_plan x.packages)
unfolding confirm_review set_record reviewed_plan has_plan
confirm_review_plan k token m r x e q h =
    let new = new_ref (record r.value { reviewed = true }) m in
    ground (arith, e, q, get-put k k new m.records, key_eq_refl k)

published-records :
    (b : Bool) (k : Key) (c : Option (List RemovablePackage)) (source : Text) (at : ℕ)
    (shown : Bool) (m : Manager)
    → (if b then publish_cleanup k c source at shown m else m).records ≡ m.records
unfolding publish_cleanup
published-records b k c source at shown m = ground arith

-- The answer of the stored scan is stored.
complete_scan_record :
    (k : Key) (own : Ref ScanRecord) (at : ℕ) (token : Text) (a : Answer ScanError ScanResult)
    (c : Answer UpdateError (List RemovablePackage)) (now : ℕ) (shown : Bool) (m : Manager)
    → is_own (get k m.records) own ≡ true
    → (r : Ref ScanRecord) × (get k (complete_scan k own at token a c now shown m).records ≡ some r)
      × (r.value ≡ scan_outcome at token a)
unfolding complete_scan finish_scan set_record
complete_scan_record k own at token a c now shown m h =
    let m' =
      if scan_success (scan_outcome at token a).status && is_own (get k m.records) own
      then publish_cleanup k (observed_candidates c) (codes "scan") now shown m
      else m in
    let same : m'.records ≡ m.records =
      published-records _ k (observed_candidates c) _ now shown m in
    let new = new_ref (scan_outcome at token a) m' in
    (new, rw (same, h) (rw (get-put, key_eq_refl) refl), refl)

scan_outcome_token :
    (at : ℕ) (token old : Text) (a : Answer ScanError ScanResult)
    → (scan_outcome at token a).token ≡ some old
    → token ≡ old
unfolding scan_outcome
scan_outcome_token at token old (returned x) h = cc
scan_outcome_token at token old (raised e) h = cc
scan_outcome_token at token old unexpected h = cc

-- Once a scan has answered with a new token, a review of an older token is refused.
pub stale_review_refused :
    (k : Key) (own : Ref ScanRecord) (at : ℕ) (token old : Text) (a : Answer ScanError ScanResult)
    (c : Answer UpdateError (List RemovablePackage)) (now : ℕ) (shown : Bool) (m : Manager)
    → is_own (get k m.records) own ≡ true
    → token ≢ old
    → (confirm_review k old (complete_scan k own at token a c now shown m)).0 ≡ false
stale_review_refused k own at token old a c now shown m h ne =
    let m' = complete_scan k own at token a c now shown m in
    elim (Bool-cases (confirm_review k old m').0) [
      | inl yes' ↦
          let (r, e, p, t) = (confirm_review_iff k old m').0 yes' in
          let (r', e', v) = complete_scan_record k own at token a c now shown m h in
          let same : r ≡ r' = cc (e, e') in
          absurd (ne (scan_outcome_token at token old a (rw (← v, ← same) t)))
      | inr no' ↦ no'
    ]

accepted-records :
    (k : Key) (at : ℕ) (skip : Bool) (m : Manager)
    → get k (accept_update k at skip m).records ≡ some (new_ref no_scan m)
unfolding accept_update retire_evidence set_record set_update_record invalidate_health
    invalidate_cleanup
accepted-records k at skip m = rw (get-put, key_eq_refl) refl

accepted-viewed :
    (k : Key) (at : ℕ) (skip : Bool) (m : Manager)
    → get k (accept_update k at skip m).viewed_tokens ≡ none
unfolding accept_update retire_evidence set_record set_update_record invalidate_health
    invalidate_cleanup
accepted-viewed k at skip m = rw (get-pop, key_eq_refl) refl

accepted-cleanup :
    (k : Key) (at : ℕ) (skip : Bool) (m : Manager)
    → get k (accept_update k at skip m).cleanup_evidence ≡ none
unfolding accept_update retire_evidence set_record set_update_record invalidate_health
    invalidate_cleanup
accepted-cleanup k at skip m = rw (get-pop, key_eq_refl) refl

-- From the moment an Update is accepted its plan cannot be used again, no review of it can be
-- confirmed, by a token or by what was viewed, and no cleanup evidence is left.
pub accept_update_consumes :
    (k : Key) (at : ℕ) (skip : Bool) (m : Manager)
    → (reviewed_plan (get k (accept_update k at skip m).records) ≡ none)
      × ((confirm_viewed_review k (accept_update k at skip m)).0 ≡ false)
      × ((token : Text) → (confirm_review k token (accept_update k at skip m)).0 ≡ false)
      × (get k (accept_update k at skip m).cleanup_evidence ≡ none)
unfolding reviewed_plan has_plan confirm_viewed_review confirm_review
accept_update_consumes k at skip m = (
  ground (arith, accepted-records k at skip m),
  ground (arith, accepted-viewed k at skip m),
  (λ token. ground (arith, accepted-records k at skip m)),
  accepted-cleanup k at skip m,
)
