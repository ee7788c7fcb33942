-- ===== src/Manager/Lifecycle/Attempts.antt =====
-- The starts and the finishes of Update and Autoremove keep the agreement with the records
-- (custom_components/hubinet_ops/packages/manager.py).
use hubinet_ops_next.Prelude.{
  ℕ, ◌≡◌, refl, Bool, false, ◌&&◌, List, ◌∷◌, arith, Bool-cases, inl, inr,
}
use hubinet_ops_next.Prelude.Results.{ok}
use hubinet_ops_next.Dict.{Key, get, pop}
use hubinet_ops_next.Models.{UpdateRecord, HealthSource, RemovablePackage, update_success}
use hubinet_ops_next.Manager.State.{
  Ref, Manager, new_ref, is_own, set_update_record, set_cleanup_record, set_record,
  health_claim_blocked, invalidate_cleanup, invalidate_health,
}
use hubinet_ops_next.Manager.Health.{Launch, try_claim_health}
use hubinet_ops_next.Manager.Update.{
  Attempt, PlanRow, start_update, finish_update, start_autoremove, finish_cleanup,
  claim_before_publish, accept_update, accept_autoremove, retire_evidence, running_update,
}
use hubinet_ops_next.Manager.Ownership.{Run, Owned-mono, Owned-put, Owned-start}
use hubinet_ops_next.Manager.Lifecycle.Frame.{
  Frame-claim, Frame-start_claimed_health, Agrees, Agrees-Frame,
}
use hubinet_ops_next.Manager.Accept.{
  start_update_iff, start_update_state, start_autoremove_iff, start_autoremove_state,
}

module _ {us cs : List Run} where
  Agrees-set_update_record :
      (k : Key) (r : UpdateRecord) (m : Manager)
      → Agrees us cs m
      → Agrees us cs (set_update_record k r m)
  unfolding set_update_record
  Agrees-set_update_record k r m a = record {
    updates = Owned-put k r a.updates;
    cleanups = Owned-mono (omega arith) a.cleanups;
  }

  Agrees-set_cleanup_record :
      (k : Key) (r : UpdateRecord) (m : Manager)
      → Agrees us cs m
      → Agrees us cs (set_cleanup_record k r m)
  unfolding set_cleanup_record
  Agrees-set_cleanup_record k r m a = record {
    updates = Owned-mono (omega arith) a.updates;
    cleanups = Owned-put k r a.cleanups;
  }

  Agrees-try_claim :
      (k : Key) (source : HealthSource) (m : Manager)
      → Agrees us cs m
      → Agrees us cs (try_claim_health k source m).1
  unfolding try_claim_health
  Agrees-try_claim k source m a = elim (Bool-cases (health_claim_blocked k.vmid m)) [
    | inl b ↦ rw b a
    | inr b ↦ rw b (Agrees-Frame (Frame-claim k source m) a)
  ]

  Agrees-before_publish :
      (claim : Bool) (k : Key) (source : HealthSource) (r : UpdateRecord) (m : Manager)
      → Agrees us cs m
      → Agrees us cs (claim_before_publish claim k source r m).1
  Agrees-before_publish claim k source r m a =
      elim (Bool-cases (claim && update_success r.status)) [
        | inl b ↦ rw b (Agrees-try_claim k source m a)
        | inr b ↦ rw b a
      ]

  module _ (k : Key) (own : Ref UpdateRecord) (outcome : UpdateRecord) (claim : Bool) (l : Launch)
      (m : Manager) where
    pub Agrees-finish_update :
        Agrees us cs m → Agrees us cs (finish_update k own outcome claim l m).1
    unfolding finish_update
    Agrees-finish_update a = elim (Bool-cases (is_own (get k m.update_records) own)) [
      | inl h ↦
          let m0 = record m { update_tasks = pop k m.update_tasks } in
          let c = claim_before_publish claim k HealthSource.update outcome m0 in
          let b = Agrees-set_update_record k outcome c.1 (
            Agrees-before_publish claim k HealthSource.update outcome m0
              (record { updates = a.updates; cleanups = a.cleanups })) in
          rw h (
            Agrees-Frame (Frame-start_claimed_health k c.0 l _)
              (record { updates = b.updates; cleanups = b.cleanups }))
      | inr h ↦ rw h a
    ]

    pub Agrees-finish_cleanup :
        Agrees us cs m → Agrees us cs (finish_cleanup k own outcome claim l m).1
    unfolding finish_cleanup
    Agrees-finish_cleanup a = elim (Bool-cases (is_own (get k m.cleanup_records) own)) [
      | inl h ↦
          let m0 = record m { cleanup_tasks = pop k m.cleanup_tasks } in
          let c = claim_before_publish claim k HealthSource.autoremove outcome m0 in
          let b = Agrees-set_cleanup_record k outcome c.1 (
            Agrees-before_publish claim k HealthSource.autoremove outcome m0
              (record { updates = a.updates; cleanups = a.cleanups })) in
          rw h (
            Agrees-Frame (Frame-start_claimed_health k c.0 l _)
              (record { updates = b.updates; cleanups = b.cleanups }))
      | inr h ↦ rw h a
    ]

  -- An accepted start adds its own record to the attempts.
  Agrees-accept_update :
      (k : Key) (at : ℕ) (skip : Bool) (m : Manager)
      → Agrees us cs m
      → Agrees
          ((k, new_ref (running_update at skip) (retire_evidence k m)) ∷ us)
          cs
          (accept_update k at skip m)
  unfolding accept_update retire_evidence set_update_record set_record invalidate_health
      invalidate_cleanup
  Agrees-accept_update k at skip m a = record {
    updates =
        Owned-mono (omega arith)
          (Owned-start k (running_update at skip) refl (Owned-mono (omega arith) a.updates));
    cleanups = Owned-mono (omega arith) a.cleanups;
  }

  Agrees-accept_autoremove :
      (k : Key) (at : ℕ) (m : Manager)
      → Agrees us cs m
      → Agrees us ((k, new_ref (running_update at false) m) ∷ cs) (accept_autoremove k at m)
  unfolding accept_autoremove set_cleanup_record invalidate_health invalidate_cleanup
  Agrees-accept_autoremove k at m a = record {
    updates = Owned-mono (omega arith) a.updates;
    cleanups = Owned-mono (omega arith) (Owned-start k (running_update at false) refl a.cleanups);
  }

  pub Agrees-start_update :
      (k : Key) (running permission skip : Bool) (at : ℕ) (m : Manager) (x : Attempt (List PlanRow))
      → (start_update k running permission skip at m).0 ≡ ok x
      → Agrees us cs m
      → Agrees ((k, x.own) ∷ us) cs (start_update k running permission skip at m).1
  Agrees-start_update k running permission skip at m x done a =
      let (may, plan, own) = (start_update_iff k running permission skip at m x).0 done in
      rw (own, (start_update_state k running permission skip at m).0 x done)
        (Agrees-accept_update k at skip m a)

  pub Agrees-start_autoremove :
      (k : Key) (running permission : Bool) (at : ℕ) (m : Manager)
      (x : Attempt (List RemovablePackage))
      → (start_autoremove k running permission at m).0 ≡ ok x
      → Agrees us cs m
      → Agrees us ((k, x.own) ∷ cs) (start_autoremove k running permission at m).1
  Agrees-start_autoremove k running permission at m x done a =
      let (may, plan, own) = (start_autoremove_iff k running permission at m x).0 done in
      rw (own, (start_autoremove_state k running permission at m).0 x done)
        (Agrees-accept_autoremove k at m a)
