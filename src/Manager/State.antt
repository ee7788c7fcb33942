-- ===== src/Manager/State.antt =====
-- The state of `PackageManager` (custom_components/hubinet_ops/packages/manager.py), the private
-- methods that write it, and the tests that its guards are made of.
--
-- Python compares records by identity (`is own_record`), so a stored record carries the number of
-- its object. A background task is a number too. The calls out of the manager (listeners,
-- presentation, cancellation of a task) are appended to a log; what they raise is caught by the
-- source, so it is modelled only where the source goes on differently.
use hubinet_ops_next.Prelude.{
  ℕ, ◌+◌, Bool, false, ◌||◌, Option, none, some, List, [], ◌∷◌, ◌++◌, Text, ◌==◌, if◌then◌else◌,
  is_some, any,
}
use hubinet_ops_next.Dict.{Key, Dict, get, put, pop, any_at, any_vmid}
use hubinet_ops_next.Models.{
  ScanRecord, UpdateRecord, HealthRecord, HealthSource, CheckStatus, CleanupEvidence,
  RemovablePackage, no_scan, no_update, no_health, scan_running, update_running, check_running,
}

-- An object: its identity and its value.
pub record Ref {ℓ} (A : Type ℓ) : Type ℓ where
  pub object : ℕ
  pub value : A

-- What the manager does outside its own state.
pub data Notice : Type 0 where
  state_change : Notice
  review_dismissed : Key → Notice
  cleanup_invalidated : Key → Notice
  -- the candidates that are shown, `none` where they are unknown, and the source's label
  cleanup_observed : Key → Option (List RemovablePackage) → Text → Notice
  update_completed : Key → UpdateRecord → Notice
  cleanup_completed : Key → UpdateRecord → Notice
  helper_version_changed : ℕ → Notice
  cancelled : ℕ → Notice

pub record Manager : Type 0 where
  -- `_transport.configured`, and whether a `_proxmox_getter` is there
  pub configured : Bool
  pub has_proxmox : Bool
  pub records : Dict (Ref ScanRecord)
  pub tasks : Dict ℕ
  pub update_records : Dict (Ref UpdateRecord)
  pub update_tasks : Dict ℕ
  pub cleanup_evidence : Dict CleanupEvidence
  pub fenced_evidence : List Key
  pub cleanup_records : Dict (Ref UpdateRecord)
  pub cleanup_tasks : Dict ℕ
  pub restore_reserved : List Key
  pub health_records : Dict (Ref HealthRecord)
  pub health_tasks : Dict ℕ
  pub helper_version : Option ℕ
  pub viewed_tokens : Dict Text
  -- the next number of an object or a task, the tasks that are done, and the log
  pub fresh : ℕ
  pub finished : List ℕ
  pub notices : List Notice

-- `__init__`
abbrev pub new_manager : Bool → Bool → Manager
new_manager configured has_proxmox = record {
  configured = configured;
  has_proxmox = has_proxmox;
  records = [];
  tasks = [];
  update_records = [];
  update_tasks = [];
  cleanup_evidence = [];
  fenced_evidence = [];
  cleanup_records = [];
  cleanup_tasks = [];
  restore_reserved = [];
  health_records = [];
  health_tasks = [];
  helper_version = none;
  viewed_tokens = [];
  fresh = 0;
  finished = [];
  notices = [];
}

abbrev pub notify : Notice → Manager → Manager
notify n m = record m { notices = m.notices ++ n ∷ [] }

abbrev pub value_or {ℓ} : {A : Type ℓ} → A → Option (Ref A) → A
value_or a none = a
value_or a (some r) = r.value

unfoldable pub scan_record : Key → Manager → ScanRecord
scan_record k m = value_or no_scan (get k m.records)

unfoldable pub update_record : Key → Manager → UpdateRecord
update_record k m = value_or no_update (get k m.update_records)

unfoldable pub cleanup_record : Key → Manager → UpdateRecord
cleanup_record k m = value_or no_update (get k m.cleanup_records)

unfoldable pub health_record : Key → Manager → HealthRecord
health_record k m = value_or no_health (get k m.health_records)

-- `stored is own_record`
abbrev pub is_own {ℓ} : {A : Type ℓ} → Option (Ref A) → Ref A → Bool
is_own none own = false
is_own (some r) own = r.object == own.object

-- The object that the next write to a record stores.
abbrev pub new_ref {ℓ} : {A : Type ℓ} → A → Manager → Ref A
new_ref a m = record { object = m.fresh; value = a }

-- `_set_record`, `_set_update_record` and `_set_cleanup_record` store a new object.
unfoldable pub set_record : Key → ScanRecord → Manager → Manager
set_record k r m =
    notify Notice.state_change
      (record m { records = put k (new_ref r m) m.records; fresh = m.fresh + 1 })

unfoldable pub set_update_record : Key → UpdateRecord → Manager → Manager
set_update_record k r m =
    notify Notice.state_change
      (record m { update_records = put k (new_ref r m) m.update_records; fresh = m.fresh + 1 })

unfoldable pub set_cleanup_record : Key → UpdateRecord → Manager → Manager
set_cleanup_record k r m =
    notify Notice.state_change
      (record m { cleanup_records = put k (new_ref r m) m.cleanup_records; fresh = m.fresh + 1 })

-- `_claim_health_record`, whose result is the object that it stores: `new_ref` of the claim.
abbrev pub health_claim : HealthSource → HealthRecord
health_claim source = record no_health { check_status = CheckStatus.running; source = some source }

unfoldable pub claim_health_record : Key → HealthSource → Manager → Manager
claim_health_record k source m = notify Notice.state_change (record m {
  health_records = put k (new_ref (health_claim source) m) m.health_records;
  fresh = m.fresh + 1;
})

abbrev same_task : ℕ → ℕ → Bool
same_task a b = a == b

-- `if task is not None and not task.done(): task.cancel()`
cancel_task : Option ℕ → Manager → Manager
cancel_task none m = m
cancel_task (some t) m = if any (same_task t) m.finished then m else notify (Notice.cancelled t) m

unfoldable pub cancel : Option ℕ → Manager → Manager
unfolding cancel_task
cancel t m = record m { notices = (cancel_task t m).notices }

-- `_dismiss_review`
abbrev pub dismiss_review : Key → Manager → Manager
dismiss_review k = notify (Notice.review_dismissed k)

-- `_invalidate_cleanup`
unfoldable pub invalidate_cleanup : Key → Manager → Manager
invalidate_cleanup k m =
    let removed = is_some (get k m.cleanup_evidence) in
    let m' =
      notify (Notice.cleanup_invalidated k)
        (record m { cleanup_evidence = pop k m.cleanup_evidence }) in
    record m' { notices = if removed then m'.notices ++ Notice.state_change ∷ [] else m'.notices }

-- `_invalidate_health`, and whether it found anything.
unfoldable pub invalidate_health : Key → Manager → Manager
unfolding cancel
invalidate_health k m =
    cancel (get k m.health_tasks)
      (record m { health_records = pop k m.health_records; health_tasks = pop k m.health_tasks })

unfoldable pub had_health : Key → Manager → Bool
had_health k m = is_some (get k m.health_records) || is_some (get k m.health_tasks)

-- The tests of the guards, over every node that has the VMID.
abbrev pub scan_is_running : Ref ScanRecord → Bool
scan_is_running r = scan_running r.value.status

abbrev pub update_is_running : Ref UpdateRecord → Bool
update_is_running r = update_running r.value.status

abbrev pub health_is_running : Ref HealthRecord → Bool
health_is_running r = check_running r.value.check_status

unfoldable pub restore_owns : ℕ → Manager → Bool
restore_owns vmid m = any_vmid vmid m.restore_reserved

unfoldable pub scan_busy : ℕ → Manager → Bool
scan_busy vmid m = any_at vmid scan_is_running m.records

unfoldable pub update_busy : ℕ → Manager → Bool
update_busy vmid m = any_at vmid update_is_running m.update_records

unfoldable pub cleanup_busy : ℕ → Manager → Bool
cleanup_busy vmid m = any_at vmid update_is_running m.cleanup_records

-- `_health_running`
unfoldable pub health_busy : ℕ → Manager → Bool
health_busy vmid m = any_at vmid health_is_running m.health_records

-- Update, Autoremove and Health ask for all of these at once.
unfoldable pub package_busy : ℕ → Manager → Bool
package_busy vmid m =
    scan_busy vmid m || (update_busy vmid m || cleanup_busy vmid m) || health_busy vmid m

-- `_health_claim_blocked`
unfoldable pub health_claim_blocked : ℕ → Manager → Bool
health_claim_blocked vmid m = restore_owns vmid m || scan_busy vmid m || health_busy vmid m
