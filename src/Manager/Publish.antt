-- ===== src/Manager/Publish.antt =====
-- What the ends of `_async_run_update` and `_async_run_autoremove` publish
-- (custom_components/hubinet_ops/packages/manager.py).
use hubinet_ops_next.Prelude.{ℕ, ◌≡◌, ◌∙◌, Bool, true, false, Option, none, some, List, codes}
use hubinet_ops_next.Dict.{Key, get}
use hubinet_ops_next.Models.{UpdateRecord, RemovablePackage, HealthSource, update_success}
use hubinet_ops_next.Manager.State.{
  Ref, Manager, is_own, update_record, cleanup_record, health_record, health_claim,
  health_claim_blocked,
}
use hubinet_ops_next.Manager.Scan.{publish_cleanup}
use hubinet_ops_next.Manager.Health.{Launch, suspended}
use hubinet_ops_next.Manager.Update.{finish_update, finish_cleanup}
use hubinet_ops_next.Manager.Conclude.{
  Observation, seen, not_seen, cut_off, conclude_update, conclude_autoremove,
}
use hubinet_ops_next.Manager.Stored.{
  publish_cleanup-records, publish_cleanup-blocked, finish_update-record, finish_update-health,
  finish_update-unclaimed, finish_cleanup-record, finish_cleanup-health, finish_cleanup-unclaimed,
}

-- Whether the coroutine was cancelled while it asked for the cleanup plan.
abbrev pub is_cut_off : Observation → Bool
is_cut_off (seen ps) = false
is_cut_off not_seen = false
is_cut_off cut_off = true

finish_update-seen :
    (k : Key) (own : Ref UpdateRecord) (outcome : UpdateRecord) (a : Option (List RemovablePackage))
    (now : ℕ) (shown claim : Bool) (l : Launch) (m : Manager)
    → is_own (get k m.update_records) own ≡ true
    → update_record k
        (finish_update k own outcome claim l (publish_cleanup k a (codes "update") now shown m)).1
      ≡ outcome
finish_update-seen k own outcome a now shown claim l m h =
    finish_update-record k own outcome claim l (publish_cleanup k a (codes "update") now shown m)
      (rw ((publish_cleanup-records k a (codes "update") now shown m).0) h)

finish_update-checked :
    (k : Key) (own : Ref UpdateRecord) (outcome : UpdateRecord) (a : Option (List RemovablePackage))
    (now : ℕ) (shown : Bool) (m : Manager)
    → is_own (get k m.update_records) own ≡ true
    → update_success outcome.status ≡ true
    → health_claim_blocked k.vmid m ≡ false
    → health_record k
        (finish_update k own outcome true suspended
          (publish_cleanup k a (codes "update") now shown m)).1
      ≡ health_claim HealthSource.update
finish_update-checked k own outcome a now shown m h e b =
    finish_update-health k own outcome (publish_cleanup k a (codes "update") now shown m)
      (rw ((publish_cleanup-records k a (codes "update") now shown m).0) h) e
      (publish_cleanup-blocked k a (codes "update") now shown m ∙ b)

-- When an update that owns its target ends, however its cleanup plan was answered, its record is the
-- stored one. A success whose question was answered or failed leaves a Health check RUNNING, where no
-- Restore, Scan or Health check of the VMID hinders it and its task waits; an end that was cut off
-- leaves the Health records as they were.
pub conclude_update-publishes :
    (k : Key) (own : Ref UpdateRecord) (outcome : UpdateRecord) (o : Observation) (now : ℕ)
    (shown : Bool) (m : Manager)
    → is_own (get k m.update_records) own ≡ true
    → ((l : Launch) → update_record k (conclude_update k own outcome o now shown l m) ≡ outcome)
      × (is_cut_off o ≡ false
          → update_success outcome.status ≡ true
          → health_claim_blocked k.vmid m ≡ false
          → health_record k (conclude_update k own outcome o now shown suspended m)
            ≡ health_claim HealthSource.update)
      × (is_cut_off o ≡ true
          → (l : Launch)
          → (conclude_update k own outcome o now shown l m).health_records ≡ m.health_records)
unfolding conclude_update
conclude_update-publishes k own outcome (seen ps) now shown m h = (
  λ l. finish_update-seen k own outcome (some ps) now shown true l m h,
  λ c e b. finish_update-checked k own outcome (some ps) now shown m h e b,
  λ c l. cc,
)
conclude_update-publishes k own outcome not_seen now shown m h = (
  λ l. finish_update-seen k own outcome none now shown true l m h,
  λ c e b. finish_update-checked k own outcome none now shown m h e b,
  λ c l. cc,
)
conclude_update-publishes k own outcome cut_off now shown m h = (
  λ l. rw h (finish_update-seen k own outcome none now shown false l m h),
  λ c e b. cc,
  λ c l. rw h (
      finish_update-unclaimed k own outcome l (publish_cleanup k none (codes "update") now shown m)
      ∙ (publish_cleanup-records k none (codes "update") now shown m).2),
)

finish_cleanup-seen :
    (k : Key) (own : Ref UpdateRecord) (outcome : UpdateRecord) (a : Option (List RemovablePackage))
    (now : ℕ) (shown claim : Bool) (l : Launch) (m : Manager)
    → is_own (get k m.cleanup_records) own ≡ true
    → cleanup_record k
        (finish_cleanup k own outcome claim l
          (publish_cleanup k a (codes "autoremove") now shown m)).1
      ≡ outcome
finish_cleanup-seen k own outcome a now shown claim l m h =
    finish_cleanup-record k own outcome claim l
      (publish_cleanup k a (codes "autoremove") now shown m)
      (rw ((publish_cleanup-records k a (codes "autoremove") now shown m).1) h)

finish_cleanup-checked :
    (k : Key) (own : Ref UpdateRecord) (outcome : UpdateRecord) (a : Option (List RemovablePackage))
    (now : ℕ) (shown : Bool) (m : Manager)
    → is_own (get k m.cleanup_records) own ≡ true
    → update_success outcome.status ≡ true
    → health_claim_blocked k.vmid m ≡ false
    → health_record k
        (finish_cleanup k own outcome true suspended
          (publish_cleanup k a (codes "autoremove") now shown m)).1
      ≡ health_claim HealthSource.autoremove
finish_cleanup-checked k own outcome a now shown m h e b =
    finish_cleanup-health k own outcome (publish_cleanup k a (codes "autoremove") now shown m)
      (rw ((publish_cleanup-records k a (codes "autoremove") now shown m).1) h) e
      (publish_cleanup-blocked k a (codes "autoremove") now shown m ∙ b)

-- When a run of Autoremove that owns its target ends, however its cleanup plan was answered, its record is the
-- stored one. A success whose question was answered or failed leaves a Health check RUNNING, where no
-- Restore, Scan or Health check of the VMID hinders it and its task waits; an end that was cut off
-- leaves the Health records as they were.
pub conclude_autoremove-publishes :
    (k : Key) (own : Ref UpdateRecord) (outcome : UpdateRecord) (o : Observation) (now : ℕ)
    (shown : Bool) (m : Manager)
    → is_own (get k m.cleanup_records) own ≡ true
    → ((l : Launch)
        → cleanup_record k (conclude_autoremove k own outcome o now shown l m) ≡ outcome)
      × (is_cut_off o ≡ false
          → update_success outcome.status ≡ true
          → health_claim_blocked k.vmid m ≡ false
          → health_record k (conclude_autoremove k own outcome o now shown suspended m)
            ≡ health_claim HealthSource.autoremove)
      × (is_cut_off o ≡ true
          → (l : Launch)
          → (conclude_autoremove k own outcome o now shown l m).health_records ≡ m.health_records)
unfolding conclude_autoremove
conclude_autoremove-publishes k own outcome (seen ps) now shown m h = (
  λ l. finish_cleanup-seen k own outcome (some ps) now shown true l m h,
  λ c e b. finish_cleanup-checked k own outcome (some ps) now shown m h e b,
  λ c l. cc,
)
conclude_autoremove-publishes k own outcome not_seen now shown m h = (
  λ l. finish_cleanup-seen k own outcome none now shown true l m h,
  λ c e b. finish_cleanup-checked k own outcome none now shown m h e b,
  λ c l. cc,
)
conclude_autoremove-publishes k own outcome cut_off now shown m h = (
  λ l. rw h (finish_cleanup-seen k own outcome none now shown false l m h),
  λ c e b. cc,
  λ c l. rw h (
      finish_cleanup-unclaimed k own outcome l
        (publish_cleanup k none (codes "autoremove") now shown m)
      ∙ (publish_cleanup-records k none (codes "autoremove") now shown m).2),
)
