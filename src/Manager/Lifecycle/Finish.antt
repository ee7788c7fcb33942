-- ===== src/Manager/Lifecycle/Finish.antt =====
-- A finished Update or Autoremove hands over to its Health check and keeps the exclusion
-- (custom_components/hubinet_ops/packages/manager.py).
use hubinet_ops_next.Prelude.{
  ℕ, ◌≡◌, refl, Bool, true, false, ◌&&◌, List, arith, Bool-cases, Option-cases, inl, inr,
}
use hubinet_ops_next.Dict.{Key, Dict, get, pop}
use hubinet_ops_next.Dict.Laws.{count_at-put, holds}
use hubinet_ops_next.Models.{UpdateRecord, HealthSource, update_running, update_success}
use hubinet_ops_next.Manager.State.{
  Ref, Manager, Notice, new_ref, is_own, update_is_running, health_is_running, health_claim,
  claim_health_record, set_update_record, set_cleanup_record, health_claim_blocked,
}
use hubinet_ops_next.Manager.Health.{Launch, try_claim_health}
use hubinet_ops_next.Manager.Update.{finish_update, finish_cleanup, claim_before_publish}
use hubinet_ops_next.Manager.Exclusion.{
  restores, scans, updates, cleanups, healths, IsExclusive, Quiet-IsExclusive, Quiet-trans,
}
use hubinet_ops_next.Manager.Exclusion.Moves.{Quiet-start_claimed_health, Quiet-same, Quiet-notify}
use hubinet_ops_next.Manager.Ownership.{Run, In, Owned}

-- The hand-over from a finished attempt to its Health check, whether or not Health is claimed.
module _ (k : Key) (source : HealthSource) (r : UpdateRecord) (m : Manager)
    (stopped : update_running r.status ≡ false) where
  set_update_record-IsExclusive : IsExclusive m → IsExclusive (set_update_record k r m)
  unfolding set_update_record restores scans updates cleanups healths
  set_update_record-IsExclusive e = record {
    mutations = λ v.
        ground
          (arith, e.mutations v, count_at-put v update_is_running k (new_ref r m) m.update_records);
    work = λ v.
        ground (arith, e.work v, count_at-put v update_is_running k (new_ref r m) m.update_records);
  }

  set_cleanup_record-IsExclusive : IsExclusive m → IsExclusive (set_cleanup_record k r m)
  unfolding set_cleanup_record restores scans updates cleanups healths
  set_cleanup_record-IsExclusive e = record {
    mutations = λ v.
        ground (
          arith,
          e.mutations v,
          count_at-put v update_is_running k (new_ref r m) m.cleanup_records,
        );
    work = λ v.
        ground
          (arith, e.work v, count_at-put v update_is_running k (new_ref r m) m.cleanup_records);
  }

  update_handover-IsExclusive :
      holds update_is_running (get k m.update_records) ≡ true
      → IsExclusive m
      → IsExclusive (set_update_record k r (claim_health_record k source m))
  unfolding set_update_record claim_health_record restores scans updates cleanups healths
  update_handover-IsExclusive own e =
      let m' = claim_health_record k source m in
      record {
        mutations = λ v. ground (
          arith,
          e.mutations v,
          count_at-put v update_is_running k (new_ref r m') m.update_records,
        );
        work = λ v. ground (
          arith,
          e.work v,
          count_at-put v update_is_running k (new_ref r m') m.update_records,
          count_at-put v health_is_running k (new_ref (health_claim source) m) m.health_records,
        );
      }

  cleanup_handover-IsExclusive :
      holds update_is_running (get k m.cleanup_records) ≡ true
      → IsExclusive m
      → IsExclusive (set_cleanup_record k r (claim_health_record k source m))
  unfolding set_cleanup_record claim_health_record restores scans updates cleanups healths
  cleanup_handover-IsExclusive own e =
      let m' = claim_health_record k source m in
      record {
        mutations = λ v. ground (
          arith,
          e.mutations v,
          count_at-put v update_is_running k (new_ref r m') m.cleanup_records,
        );
        work = λ v. ground (
          arith,
          e.work v,
          count_at-put v update_is_running k (new_ref r m') m.cleanup_records,
          count_at-put v health_is_running k (new_ref (health_claim source) m) m.health_records,
        );
      }

-- An own record that is still stored is RUNNING.
own_holds :
    {f : ℕ} {l : List Run} (k : Key) (own : Ref UpdateRecord) (d : Dict (Ref UpdateRecord))
    → Owned f d l
    → In (k, own) l
    → is_own (get k d) own ≡ true
    → holds update_is_running (get k d) ≡ true
own_holds k own d w i h = elim (Option-cases (get k d)) [
  | inl e ↦ absurd (ground (arith, e))
  | inr (r, e) ↦
      let same : r ≡ own = w.own_same k k own r i e (ground arith) in
      rw (e, same) (w.own_running k own i)
]

module _ (k : Key) (claim : Bool) (r : UpdateRecord) (m : Manager)
    (stopped : update_running r.status ≡ false) (e : IsExclusive m) where
  claimed_update-IsExclusive :
      holds update_is_running (get k m.update_records) ≡ true
      → IsExclusive (set_update_record k r (claim_before_publish claim k HealthSource.update r m).1)
  unfolding try_claim_health
  claimed_update-IsExclusive own = elim (Bool-cases (claim && update_success r.status)) [
    | inl c ↦ rw c (elim (Bool-cases (health_claim_blocked k.vmid m)) [
      | inl b ↦ rw b (set_update_record-IsExclusive k HealthSource.update r m stopped e)
      | inr b ↦ rw b (update_handover-IsExclusive k HealthSource.update r m stopped own e)
    ])
    | inr c ↦ rw c (set_update_record-IsExclusive k HealthSource.update r m stopped e)
  ]

  claimed_cleanup-IsExclusive :
      holds update_is_running (get k m.cleanup_records) ≡ true
      → IsExclusive
          (set_cleanup_record k r (claim_before_publish claim k HealthSource.autoremove r m).1)
  unfolding try_claim_health
  claimed_cleanup-IsExclusive own = elim (Bool-cases (claim && update_success r.status)) [
    | inl c ↦ rw c (elim (Bool-cases (health_claim_blocked k.vmid m)) [
      | inl b ↦ rw b (set_cleanup_record-IsExclusive k HealthSource.autoremove r m stopped e)
      | inr b ↦ rw b (cleanup_handover-IsExclusive k HealthSource.autoremove r m stopped own e)
    ])
    | inr c ↦ rw c (set_cleanup_record-IsExclusive k HealthSource.autoremove r m stopped e)
  ]

module _ {f : ℕ} {l : List Run} (k : Key) (own : Ref UpdateRecord) (outcome : UpdateRecord)
    (claim : Bool) (launch : Launch) (m : Manager) (i : In (k, own) l)
    (stopped : update_running outcome.status ≡ false) (e : IsExclusive m) where
  pub finish_update-IsExclusive :
      Owned f m.update_records l → IsExclusive (finish_update k own outcome claim launch m).1
  unfolding finish_update
  finish_update-IsExclusive w = elim (Bool-cases (is_own (get k m.update_records) own)) [
    | inl h ↦
        let m0 = record m { update_tasks = pop k m.update_tasks } in
        let c = claim_before_publish claim k HealthSource.update outcome m0 in
        rw h (
          Quiet-IsExclusive
            (Quiet-trans (Quiet-notify (Notice.update_completed k outcome) _)
              (Quiet-start_claimed_health k c.0 launch _))
            (claimed_update-IsExclusive k claim outcome m0 stopped
              (Quiet-IsExclusive (Quiet-same refl refl refl refl refl) e)
              (own_holds k own m.update_records w i h)))
    | inr h ↦ rw h e
  ]

  pub finish_cleanup-IsExclusive :
      Owned f m.cleanup_records l → IsExclusive (finish_cleanup k own outcome claim launch m).1
  unfolding finish_cleanup
  finish_cleanup-IsExclusive w = elim (Bool-cases (is_own (get k m.cleanup_records) own)) [
    | inl h ↦
        let m0 = record m { cleanup_tasks = pop k m.cleanup_tasks } in
        let c = claim_before_publish claim k HealthSource.autoremove outcome m0 in
        rw h (
          Quiet-IsExclusive
            (Quiet-trans (Quiet-notify (Notice.cleanup_completed k outcome) _)
              (Quiet-start_claimed_health k c.0 launch _))
            (claimed_cleanup-IsExclusive k claim outcome m0 stopped
              (Quiet-IsExclusive (Quiet-same refl refl refl refl refl) e)
              (own_holds k own m.cleanup_records w i h)))
    | inr h ↦ rw h e
  ]
