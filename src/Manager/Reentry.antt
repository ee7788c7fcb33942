-- ===== src/Manager/Reentry.antt =====
-- What a listener that starts an operation at a notification can and cannot do
-- (custom_components/hubinet_ops/packages/manager.py).
use hubinet_ops_next.Prelude.{
  ℕ, ◌+◌, ◌≡◌, refl, ◌∙◌, Bool, true, false, none, [], ◌∷◌, arith, is_some, Bool-cases, inl, inr,
  ◌==◌,
}
use hubinet_ops_next.Dict.{Key, Dict, get, put, pop, any_at}
use hubinet_ops_next.Models.{UpdateRecord, HealthSource, no_scan, update_success}
use hubinet_ops_next.Manager.State.{
  Ref, Manager, new_ref, is_own, health_claim, claim_health_record, set_record, set_update_record,
  dismiss_review, invalidate_cleanup, invalidate_health, cancel, restore_owns, scan_busy,
  update_busy, cleanup_busy, health_busy, package_busy, health_claim_blocked, health_is_running,
  scan_is_running, update_is_running,
}
use hubinet_ops_next.Manager.Scan.{start_scan, accept_scan}
use hubinet_ops_next.Manager.Health.{suspended, start_health, try_claim_health}
use hubinet_ops_next.Manager.Update.{
  running_update, retire_evidence, accept_update, start_update, start_autoremove, finish_update,
}
use hubinet_ops_next.Manager.Heard.{
  retire_evidence_heard, accept_update_heard, try_claim_heard, finish_update_heard, Start, scan,
  update, autoremove, health, begin,
}

module _ {ℓ} {V : Type ℓ} where
  any_at-put-true :
      (n : ℕ) (test : V → Bool) (k : Key) (v : V) (d : Dict V)
      → (k.vmid == n) ≡ true
      → test v ≡ true
      → any_at n test (put k v d) ≡ true
  unfolding any_at put
  any_at-put-true n test k v [] h t = ground arith
  any_at-put-true n test k v ((i, w) ∷ d) h t = ground (arith, any_at-put-true n test k v d h t)

  any_at-put-false :
      (n : ℕ) (test : V → Bool) (k : Key) (v : V) (d : Dict V)
      → any_at n test d ≡ false
      → test v ≡ false
      → any_at n test (put k v d) ≡ false
  unfolding any_at put
  any_at-put-false n test k v [] h t = ground arith
  any_at-put-false n test k v ((i, w) ∷ d) h t = ground (arith, any_at-put-false n test k v d)

  any_at-pop-false :
      (n : ℕ) (test : V → Bool) (k : Key) (d : Dict V)
      → any_at n test d ≡ false
      → any_at n test (pop k d) ≡ false
  unfolding any_at pop
  any_at-pop-false n test k [] h = ground arith
  any_at-pop-false n test k ((i, w) ∷ d) h = ground (arith, any_at-pop-false n test k d)

-- While a Health check of the VMID is RUNNING, no start does anything.
begin-stop :
    (s : Start) (j : Key) (at : ℕ) (m : Manager) → health_busy j.vmid m ≡ true → begin s j at m ≡ m
unfolding begin start_scan start_update start_autoremove start_health package_busy
begin-stop scan j at m h = ground arith
begin-stop update j at m h = ground arith
begin-stop autoremove j at m h = ground arith
begin-stop health j at m h = ground arith

scan-stop :
    (j : Key) (at : ℕ) (m : Manager) → scan_busy j.vmid m ≡ true → (start_scan j true at m).1 ≡ m
unfolding start_scan
scan-stop j at m h = ground arith

claimed-busy :
    (k : Key) (m : Manager)
    → health_busy k.vmid (claim_health_record k HealthSource.update m) ≡ true
unfolding health_busy claim_health_record
claimed-busy k m =
    any_at-put-true k.vmid health_is_running k (new_ref (health_claim HealthSource.update) m)
      m.health_records (ground arith) refl

published-busy :
    (k : Key) (outcome : UpdateRecord) (m : Manager)
    → health_busy k.vmid m ≡ true
    → health_busy k.vmid (set_update_record k outcome m) ≡ true
unfolding health_busy set_update_record
published-busy k outcome m h = h

unblocked :
    (k : Key) (m : Manager)
    → health_claim_blocked k.vmid m ≡ false
    → health_claim_blocked k.vmid (record m { update_tasks = pop k m.update_tasks }) ≡ false
unfolding health_claim_blocked restore_owns scan_busy health_busy
unblocked k m b = b

-- Where a successful update that owns its target is published and nothing hinders its Health check, a
-- listener that starts a Scan, an Update, an Autoremove or a Health check of the VMID at the notification
-- of the claim and at that of the record is refused both times: the end is the one without it.
pub finish_update_heard-begin :
    (s : Start) (j k : Key) (own : Ref UpdateRecord) (outcome : UpdateRecord) (at : ℕ) (m : Manager)
    → j.vmid ≡ k.vmid
    → is_own (get k m.update_records) own ≡ true
    → update_success outcome.status ≡ true
    → health_claim_blocked k.vmid m ≡ false
    → finish_update_heard (begin s j at) k own outcome m
      ≡ (finish_update k own outcome true suspended m).1
unfolding finish_update_heard finish_update try_claim_heard try_claim_health
finish_update_heard-begin s j k own outcome at m v o e b =
    let m0 : Manager = record m { update_tasks = pop k m.update_tasks } in
    let claimed : Manager = claim_health_record k HealthSource.update m0 in
    let busy : health_busy k.vmid claimed ≡ true = claimed-busy k m0 in
    let free : health_claim_blocked k.vmid m0 ≡ false = unblocked k m b in
    let first : begin s j at claimed ≡ claimed = begin-stop s j at claimed (rw v busy) in
    let second : begin s j at (set_update_record k outcome claimed)
        ≡ set_update_record k outcome claimed =
      begin-stop s j at (set_update_record k outcome claimed)
        (rw v (published-busy k outcome claimed busy)) in
    rw (o, e, free, first, second) refl

-- What a Scan of the target asks for, when its scan record has just been cleared.
abbrev gap : Key → Manager → Manager
gap k m = set_record k no_scan (
    invalidate_health k (
      invalidate_cleanup k (dismiss_review k (record m { viewed_tokens = pop k m.viewed_tokens }))))

gap-configured : (k : Key) (m : Manager) → (gap k m).configured ≡ m.configured
unfolding set_record invalidate_health invalidate_cleanup cancel
gap-configured k m = ground arith

busy_split :
    (v : ℕ) (m : Manager)
    → package_busy v m ≡ false
    → (scan_busy v m ≡ false)
      × (update_busy v m ≡ false)
      × (cleanup_busy v m ≡ false)
      × (health_busy v m ≡ false)
unfolding package_busy
busy_split v m h = (ground arith, ground arith, ground arith, ground arith)

gap-free :
    (k : Key) (m : Manager)
    → restore_owns k.vmid m ≡ false
    → package_busy k.vmid m ≡ false
    → (restore_owns k.vmid (gap k m) ≡ false)
      × (scan_busy k.vmid (gap k m) ≡ false)
      × (update_busy k.vmid (gap k m) ≡ false)
      × (cleanup_busy k.vmid (gap k m) ≡ false)
      × (health_busy k.vmid (gap k m) ≡ false)
unfolding restore_owns scan_busy update_busy cleanup_busy health_busy set_record invalidate_health
    invalidate_cleanup cancel
gap-free k m r p =
    let (s, u, c, h) = busy_split k.vmid m p in
    (
      r,
      any_at-put-false k.vmid scan_is_running k _ m.records s refl,
      u,
      c,
      any_at-pop-false k.vmid health_is_running k m.health_records h,
    )

scan-free :
    (k : Key) (at : ℕ) (m : Manager)
    → m.configured ≡ true
    → restore_owns k.vmid m ≡ false
    → scan_busy k.vmid m ≡ false
    → update_busy k.vmid m ≡ false
    → cleanup_busy k.vmid m ≡ false
    → health_busy k.vmid m ≡ false
    → (start_scan k true at m).1 ≡ accept_scan k at m
unfolding start_scan
scan-free k at m c r s u l h = ground arith

gap-starts :
    (k : Key) (at : ℕ) (m : Manager)
    → m.configured ≡ true
    → restore_owns k.vmid m ≡ false
    → package_busy k.vmid m ≡ false
    → (start_scan k true at (gap k m)).1 ≡ accept_scan k at (gap k m)
gap-starts k at m c r p =
    let (r', s, u, l, h) = gap-free k m r p in
    scan-free k at (gap k m) (gap-configured k m ∙ c) r' s u l h

accept_scan-busy : (k : Key) (at : ℕ) (m : Manager) → scan_busy k.vmid (accept_scan k at m) ≡ true
unfolding scan_busy accept_scan set_record
accept_scan-busy k at m = any_at-put-true k.vmid scan_is_running k _ _ (ground arith) refl

-- The record of the update that is stored over a Scan.
stored_over :
    (k : Key) (at : ℕ) (skip : Bool) (m : Manager)
    → scan_busy k.vmid m ≡ true
    → (scan_busy k.vmid (set_update_record k (running_update at skip) m) ≡ true)
      × (update_busy k.vmid (set_update_record k (running_update at skip) m) ≡ true)
unfolding scan_busy update_busy set_update_record
stored_over k at skip m h =
    (h, any_at-put-true k.vmid update_is_running k _ m.update_records (ground arith) refl)

tasked :
    (k : Key) (m : Manager)
    → (scan_busy k.vmid m ≡ true) × (update_busy k.vmid m ≡ true)
    → (scan_busy k.vmid
          (record m { update_tasks = put k m.fresh m.update_tasks; fresh = m.fresh + 1 })
        ≡ true)
      × (update_busy k.vmid
            (record m { update_tasks = put k m.fresh m.update_tasks; fresh = m.fresh + 1 })
          ≡ true)
unfolding scan_busy update_busy
tasked k m h = h

-- A listener that does nothing leaves the operations as they are.
accept_update_heard-silent :
    (k : Key) (at : ℕ) (skip : Bool) (m : Manager)
    → accept_update_heard (λ x. x) k at skip m ≡ accept_update k at skip m
unfolding accept_update_heard retire_evidence_heard accept_update retire_evidence
accept_update_heard-silent k at skip m = elim (Bool-cases (is_some (get k m.cleanup_evidence))) [
  | inl e ↦ rw e refl
  | inr e ↦ rw e refl
]

finish_update_heard-silent :
    (k : Key) (own : Ref UpdateRecord) (outcome : UpdateRecord) (m : Manager)
    → finish_update_heard (λ x. x) k own outcome m
      ≡ (finish_update k own outcome true suspended m).1
unfolding finish_update_heard finish_update try_claim_heard try_claim_health
finish_update_heard-silent k own outcome m =
    elim (Bool-cases (is_own (get k m.update_records) own)) [
      | inl e ↦ rw e refl
      | inr e ↦ rw e refl
    ]

-- Take an Update that is being accepted with the transport configured, no Restore, Scan, Update,
-- Autoremove or Health check active for the VMID, and no cleanup evidence of the guest stored. A listener
-- that starts a Scan of the guest at the notifications is accepted before the record of the Update is
-- RUNNING, so that in the end both a Scan and an Update are RUNNING for the VMID.
pub accept_update_heard-scan :
    (k : Key) (at at' : ℕ) (skip : Bool) (m : Manager)
    → m.configured ≡ true
    → restore_owns k.vmid m ≡ false
    → package_busy k.vmid m ≡ false
    → get k m.cleanup_evidence ≡ none
    → (scan_busy k.vmid (accept_update_heard (begin scan k at') k at skip m) ≡ true)
      × (update_busy k.vmid (accept_update_heard (begin scan k at') k at skip m) ≡ true)
unfolding accept_update_heard retire_evidence_heard begin
accept_update_heard-scan k at at' skip m c r p e =
    let before : Manager = accept_scan k at' (gap k m) in
    let after : Manager = set_update_record k (running_update at skip) before in
    let first : (start_scan k true at' (gap k m)).1 ≡ before = gap-starts k at' m c r p in
    let both = stored_over k at skip before (accept_scan-busy k at' (gap k m)) in
    let second : (start_scan k true at' after).1 ≡ after = scan-stop k at' after both.0 in
    rw (e, first, second) (tasked k after both)
