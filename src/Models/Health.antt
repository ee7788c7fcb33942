-- ===== src/Models/Health.antt =====
-- `classify_health` of custom_components/hubinet_ops/packages/models.py.
use hubinet_ops_next.Prelude.{
  ◌≡◌, ◌≢◌, ◌↔◌, ◌⊎◌, Bool, true, false, Option, none, some, arith, if◌then◌else◌,
}
use hubinet_ops_next.Models.{DpkgState, HealthState, HealthReason, HealthEvidence, HealthOutcome}

-- The value that `dpkg_to_outcome` holds for a state other than OK.
dpkg_outcome : DpkgState → Option HealthState × Option HealthReason
dpkg_outcome DpkgState.interrupted = (some HealthState.failed, some HealthReason.dpkg_interrupted)
dpkg_outcome DpkgState.pending = (none, some HealthReason.dpkg_pending)
dpkg_outcome DpkgState.busy = (none, some HealthReason.package_manager_busy)
dpkg_outcome DpkgState.lock_unknown = (none, some HealthReason.dpkg_lock_unknown)
dpkg_outcome DpkgState.changed = (none, some HealthReason.guest_changed)
dpkg_outcome DpkgState.ok = (none, none)

-- A missing observation counts as no reboot, as Python's truth value of `None` does.
abbrev pub is_true : Option Bool → Bool
is_true (some true) = true
is_true _ = false

classify_dpkg : HealthEvidence → Option DpkgState → HealthOutcome
classify_dpkg e none = record {
  state = none;
  reason = some HealthReason.malformed_evidence;
  evidence = some e;
}
classify_dpkg e (some DpkgState.ok) =
    if is_true e.reboot_required
    then record { state = some HealthState.degraded; reason = none; evidence = some e }
    else record { state = some HealthState.healthy; reason = none; evidence = some e }
classify_dpkg e (some d) = record {
  state = (dpkg_outcome d).0;
  reason = (dpkg_outcome d).1;
  evidence = some e;
}

unfoldable pub classify_health : HealthEvidence → HealthOutcome
unfolding classify_dpkg dpkg_outcome
classify_health e =
    if e.guest_exec
    then classify_dpkg e e.dpkg
    else if e.guest_exec_unavailable
    then record { state = none; reason = some HealthReason.guest_unavailable; evidence = some e }
    else record {
      state = some HealthState.failed;
      reason = some HealthReason.guest_exec_failed;
      evidence = some e;
    }

-- What positive evidence of a failure is: the guest executes nothing though it is available, or
-- dpkg was interrupted.
abbrev pub HasFailed : HealthEvidence → Type 0
HasFailed e =
    ((e.guest_exec ≡ false) × (e.guest_exec_unavailable ≡ false))
    ⊎ ((e.guest_exec ≡ true) × (e.dpkg ≡ some DpkgState.interrupted))

-- A guest is HEALTHY exactly when it executes commands, dpkg is in order and no reboot is known
-- to be required; DEGRADED exactly when the same holds but for the reboot; FAILED exactly on
-- positive evidence of a failure.
pub classify_health_iff :
    (e : HealthEvidence)
    → (((classify_health e).state ≡ some HealthState.healthy) ↔ (
        (e.guest_exec ≡ true) × (e.dpkg ≡ some DpkgState.ok) × (is_true e.reboot_required ≡ false)))
      × (((classify_health e).state ≡ some HealthState.degraded) ↔ (
          (e.guest_exec ≡ true)
          × (e.dpkg ≡ some DpkgState.ok)
          × (is_true e.reboot_required ≡ true)))
      × (((classify_health e).state ≡ some HealthState.failed) ↔ HasFailed e)
unfolding classify_health
classify_health_iff e = ground arith

-- A verdict is missing only beside a reason, a reason beside a verdict is that of a failure, and
-- the evidence is passed on unchanged.
pub classify_health_reason :
    (e : HealthEvidence)
    → ((classify_health e).state ≡ none → (classify_health e).reason ≢ none)
      × ((classify_health e).reason ≢ none
          → ((classify_health e).state ≡ none)
            ⊎ ((classify_health e).state ≡ some HealthState.failed))
      × ((classify_health e).evidence ≡ some e)
unfolding classify_health
classify_health_reason e = ground arith
