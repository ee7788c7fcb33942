-- ===== src/Manager/Stored.antt =====
-- What `_finish_update`, `_finish_cleanup` and a cleanup observation store
-- (custom_components/hubinet_ops/packages/manager.py).
use hubinet_ops_next.Prelude.{
  ℕ, ◌≡◌, refl, ap, ◌∙◌, Bool, true, false, Option, none, some, List, Text, arith,
}
use hubinet_ops_next.Dict.{Key, get, pop}
use hubinet_ops_next.Dict.Laws.{get-put, key_eq_refl}
use hubinet_ops_next.Models.{
  HealthRecord, no_update, UpdateRecord, RemovablePackage, HealthSource, update_success,
}
use hubinet_ops_next.Manager.State.{
  Ref, Manager, Notice, notify, new_ref, value_or, is_own, update_record, cleanup_record,
  health_record, health_claim, health_claim_blocked, restore_owns, scan_busy, health_busy,
  set_update_record, set_cleanup_record, claim_health_record,
}
use hubinet_ops_next.Manager.Scan.{publish_cleanup}
use hubinet_ops_next.Manager.Health.{
  Launch, suspended, launch_health, start_claimed_health, try_claim_health, withdraw_claim,
  finish_health,
}
use hubinet_ops_next.Manager.Update.{finish_update, finish_cleanup}

-- The manager with other Health records, tasks, notices and a new count.
launch-updates :
    (k : Key) (claim : Option (Ref HealthRecord)) (l : Launch) (m : Manager)
    → ((start_claimed_health k claim l m).update_records ≡ m.update_records)
      × ((start_claimed_health k claim l m).cleanup_records ≡ m.cleanup_records)
unfolding start_claimed_health launch_health withdraw_claim finish_health
launch-updates k none l m = (refl, refl)
launch-updates k (some own) Launch.refused m = (ground arith, ground arith)
launch-updates k (some own) suspended m = (ground arith, ground arith)
launch-updates k (some own) (Launch.completed o at) m = (ground arith, ground arith)

pub publish_cleanup-records :
    (k : Key) (a : Option (List RemovablePackage)) (source : Text) (now : ℕ) (shown : Bool)
    (m : Manager)
    → ((publish_cleanup k a source now shown m).update_records ≡ m.update_records)
      × ((publish_cleanup k a source now shown m).cleanup_records ≡ m.cleanup_records)
      × ((publish_cleanup k a source now shown m).health_records ≡ m.health_records)
      × ((publish_cleanup k a source now shown m).records ≡ m.records)
      × ((publish_cleanup k a source now shown m).restore_reserved ≡ m.restore_reserved)
unfolding publish_cleanup
publish_cleanup-records k a source now shown m =
    (ground arith, ground arith, ground arith, ground arith, ground arith)

abbrev stored_update :
    Key → UpdateRecord → Option (Ref HealthRecord) → Launch → Notice → Manager → Manager
stored_update k outcome claim l n m =
    start_claimed_health k claim l (notify n (set_update_record k outcome m))

stored_update-record :
    (k : Key) (outcome : UpdateRecord) (claim : Option (Ref HealthRecord)) (l : Launch) (n : Notice)
    (m : Manager)
    → update_record k (stored_update k outcome claim l n m) ≡ outcome
unfolding update_record set_update_record
stored_update-record k outcome claim l n m =
    ap (λ d. value_or no_update (get k d))
      (launch-updates k claim l (notify n (set_update_record k outcome m))).0
    ∙ rw (get-put, key_eq_refl) refl

pub finish_update-record :
    (k : Key) (own : Ref UpdateRecord) (outcome : UpdateRecord) (claim : Bool) (l : Launch)
    (m : Manager)
    → is_own (get k m.update_records) own ≡ true
    → update_record k (finish_update k own outcome claim l m).1 ≡ outcome
unfolding finish_update
finish_update-record k own outcome claim l m h = rw h (stored_update-record k outcome _ l _ _)

-- A launched check keeps the claim where its coroutine waits.
stored_update-health :
    (k : Key) (outcome : UpdateRecord) (source : HealthSource) (n : Notice) (m : Manager)
    → health_claim_blocked k.vmid m ≡ false
    → health_record k (
        stored_update k outcome
          (try_claim_health k source m).0
          suspended
          n
          (try_claim_health k source m).1)
      ≡ health_claim source
unfolding try_claim_health start_claimed_health launch_health set_update_record claim_health_record
    health_record
stored_update-health k outcome source n m h =
    rw h (
      ground (arith, get-put k k (new_ref (health_claim source) m) m.health_records, key_eq_refl k))

-- Publishing a cleanup observation leaves what a claim of Health asks for.
pub publish_cleanup-blocked :
    (k : Key) (a : Option (List RemovablePackage)) (source : Text) (now : ℕ) (shown : Bool)
    (m : Manager)
    → health_claim_blocked k.vmid (publish_cleanup k a source now shown m)
      ≡ health_claim_blocked k.vmid m
unfolding health_claim_blocked restore_owns scan_busy health_busy
publish_cleanup-blocked k a source now shown m =
    let (updates, cleanups, healths, records, reserved) =
      publish_cleanup-records k a source now shown m in
    rw (healths, records, reserved) refl

pub finish_update-health :
    (k : Key) (own : Ref UpdateRecord) (outcome : UpdateRecord) (m : Manager)
    → is_own (get k m.update_records) own ≡ true
    → update_success outcome.status ≡ true
    → health_claim_blocked k.vmid m ≡ false
    → health_record k (finish_update k own outcome true suspended m).1
      ≡ health_claim HealthSource.update
unfolding finish_update health_claim_blocked restore_owns scan_busy health_busy
finish_update-health k own outcome m h e b =
    rw (h, e)
      (stored_update-health k outcome HealthSource.update (Notice.update_completed k outcome)
        (record m { update_tasks = pop k m.update_tasks }) b)

pub finish_update-unclaimed :
    (k : Key) (own : Ref UpdateRecord) (outcome : UpdateRecord) (l : Launch) (m : Manager)
    → (finish_update k own outcome false l m).1.health_records ≡ m.health_records
unfolding finish_update start_claimed_health set_update_record
finish_update-unclaimed k own outcome l m = ground arith

abbrev stored_cleanup :
    Key → UpdateRecord → Option (Ref HealthRecord) → Launch → Notice → Manager → Manager
stored_cleanup k outcome claim l n m =
    start_claimed_health k claim l (notify n (set_cleanup_record k outcome m))

stored_cleanup-record :
    (k : Key) (outcome : UpdateRecord) (claim : Option (Ref HealthRecord)) (l : Launch) (n : Notice)
    (m : Manager)
    → cleanup_record k (stored_cleanup k outcome claim l n m) ≡ outcome
unfolding cleanup_record set_cleanup_record
stored_cleanup-record k outcome claim l n m =
    ap (λ d. value_or no_update (get k d))
      (launch-updates k claim l (notify n (set_cleanup_record k outcome m))).1
    ∙ rw (get-put, key_eq_refl) refl

pub finish_cleanup-record :
    (k : Key) (own : Ref UpdateRecord) (outcome : UpdateRecord) (claim : Bool) (l : Launch)
    (m : Manager)
    → is_own (get k m.cleanup_records) own ≡ true
    → cleanup_record k (finish_cleanup k own outcome claim l m).1 ≡ outcome
unfolding finish_cleanup
finish_cleanup-record k own outcome claim l m h = rw h (stored_cleanup-record k outcome _ l _ _)

stored_cleanup-health :
    (k : Key) (outcome : UpdateRecord) (source : HealthSource) (n : Notice) (m : Manager)
    → health_claim_blocked k.vmid m ≡ false
    → health_record k (
        stored_cleanup k outcome
          (try_claim_health k source m).0
          suspended
          n
          (try_claim_health k source m).1)
      ≡ health_claim source
unfolding try_claim_health start_claimed_health launch_health set_cleanup_record claim_health_record
    health_record
stored_cleanup-health k outcome source n m h =
    rw h (
      ground (arith, get-put k k (new_ref (health_claim source) m) m.health_records, key_eq_refl k))

pub finish_cleanup-health :
    (k : Key) (own : Ref UpdateRecord) (outcome : UpdateRecord) (m : Manager)
    → is_own (get k m.cleanup_records) own ≡ true
    → update_success outcome.status ≡ true
    → health_claim_blocked k.vmid m ≡ false
    → health_record k (finish_cleanup k own outcome true suspended m).1
      ≡ health_claim HealthSource.autoremove
unfolding finish_cleanup health_claim_blocked restore_owns scan_busy health_busy
finish_cleanup-health k own outcome m h e b =
    rw (h, e)
      (stored_cleanup-health k outcome HealthSource.autoremove (Notice.cleanup_completed k outcome)
        (record m { cleanup_tasks = pop k m.cleanup_tasks }) b)

pub finish_cleanup-unclaimed :
    (k : Key) (own : Ref UpdateRecord) (outcome : UpdateRecord) (l : Launch) (m : Manager)
    → (finish_cleanup k own outcome false l m).1.health_records ≡ m.health_records
unfolding finish_cleanup start_claimed_health set_cleanup_record
finish_cleanup-unclaimed k own outcome l m = ground arith
