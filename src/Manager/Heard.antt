-- ===== src/Manager/Heard.antt =====
-- A listener of `on_state_change` that starts an operation while another one is being accepted or
-- published (custom_components/hubinet_ops/packages/manager.py). Home Assistant may call a listener
-- at once, so it sees the state between two writes; `hear` is what it does there.
use hubinet_ops_next.Prelude.{ℕ, ◌+◌, Bool, true, false, Option, none, some, if◌then◌else◌, is_some}
use hubinet_ops_next.Dict.{Key, get, put, pop}
use hubinet_ops_next.Models.{UpdateRecord, HealthSource, HealthRecord, no_scan, update_success}
use hubinet_ops_next.Manager.State.{
  Ref, Manager, Notice, notify, new_ref, is_own, health_claim, claim_health_record, set_record,
  set_update_record, dismiss_review, invalidate_cleanup, invalidate_health, health_claim_blocked,
}
use hubinet_ops_next.Manager.Scan.{start_scan}
use hubinet_ops_next.Manager.Health.{suspended, start_health, start_claimed_health}
use hubinet_ops_next.Manager.Update.{running_update, start_update, start_autoremove}

-- The writes of `async_start_update`, heard.
unfoldable pub retire_evidence_heard : (Manager → Manager) → Key → Manager → Manager
retire_evidence_heard hear k m =
    let m1 = dismiss_review k (record m { viewed_tokens = pop k m.viewed_tokens }) in
    let m2 = invalidate_cleanup k m1 in
    let m3 = if is_some (get k m.cleanup_evidence) then hear m2 else m2 in
    hear (set_record k no_scan (invalidate_health k m3))

unfoldable pub accept_update_heard : (Manager → Manager) → Key → ℕ → Bool → Manager → Manager
accept_update_heard hear k at skip m =
    let m1 = hear (set_update_record k (running_update at skip) (retire_evidence_heard hear k m)) in
    record m1 { update_tasks = put k m1.fresh m1.update_tasks; fresh = m1.fresh + 1 }

-- `_try_claim_health_before_publish`, heard
unfoldable pub try_claim_heard :
    (Manager → Manager) → Key → Manager → Option (Ref HealthRecord) × Manager
try_claim_heard hear k m = if health_claim_blocked k.vmid m then (none, m) else (
  some (new_ref (health_claim HealthSource.update) m),
  hear (claim_health_record k HealthSource.update m),
)

-- `_finish_update` of an attempt that is not unloaded, heard, with a Health task that waits.
unfoldable pub finish_update_heard :
    (Manager → Manager) → Key → Ref UpdateRecord → UpdateRecord → Manager → Manager
finish_update_heard hear k own outcome m =
    if is_own (get k m.update_records) own
    then (let m0 = record m { update_tasks = pop k m.update_tasks } in
        let (claim, m1) =
          if update_success outcome.status then try_claim_heard hear k m0 else (none, m0) in
        start_claimed_health k claim suspended
          (notify (Notice.update_completed k outcome) (hear (set_update_record k outcome m1))))
    else m

-- What a listener may start.
pub data Start : Type 0 where
  scan update autoremove health : Start

-- The start that a listener asks for, of a guest that runs and has the permission.
unfoldable pub begin : Start → Key → ℕ → Manager → Manager
begin scan j at m = (start_scan j true at m).1
begin update j at m = (start_update j true true false at m).1
begin autoremove j at m = (start_autoremove j true true at m).1
begin health j at m = (start_health j true suspended m).1
