-- ===== src/Models/Examples.antt =====
-- The classification of a guest that wants a reboot
-- (custom_components/hubinet_ops/packages/models.py).
use hubinet_ops_next.Prelude.{◌≡◌, ◌↔◌, true, false, some}
use hubinet_ops_next.Models.{DpkgState, HealthState, HealthEvidence}
use hubinet_ops_next.Models.Health.{classify_health, classify_health_iff, HasFailed, is_true}

abbrev wants_reboot : HealthEvidence
wants_reboot = record {
  guest_exec = true;
  guest_exec_unavailable = false;
  dpkg = some DpkgState.ok;
  unfinished_package_count = some 0;
  reboot_required = some true;
}

classify_health_iff_example :
    (((classify_health wants_reboot).state ≡ some HealthState.healthy) ↔ (
      (wants_reboot.guest_exec ≡ true)
      × (wants_reboot.dpkg ≡ some DpkgState.ok)
      × (is_true wants_reboot.reboot_required ≡ false)))
    × (((classify_health wants_reboot).state ≡ some HealthState.degraded) ↔ (
        (wants_reboot.guest_exec ≡ true)
        × (wants_reboot.dpkg ≡ some DpkgState.ok)
        × (is_true wants_reboot.reboot_required ≡ true)))
    × (((classify_health wants_reboot).state ≡ some HealthState.failed) ↔ HasFailed wants_reboot)
classify_health_iff_example = classify_health_iff wants_reboot
