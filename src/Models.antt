-- ===== src/Models.antt =====
-- The package records and evidence (custom_components/hubinet_ops/packages/models.py). A string
-- enumeration is a data type, an exception is a record of its fields, and a moment of time is a
-- number.
pub mod Health
pub mod Examples
use hubinet_ops_next.Prelude.{ℕ, Bool, true, false, Option, none, List, Text}

-- `PackageScanFailure`
pub data ScanFailure : Type 0 where
  dpkg_unfinished execution_failed guest_changed_during_scan guest_unavailable : ScanFailure
  identity_mismatch malformed_plan metadata_refresh_failed package_manager_busy : ScanFailure
  protocol_mismatch simulation_failed timeout unsupported_os : ScanFailure

-- `PackageScanStatus`
pub data ScanStatus : Type 0 where
  never running success failed : ScanStatus

-- `PackageUpdateOutcome`
pub data UpdateOutcome : Type 0 where
  plan_changed plan_failed snapshot_failed package_manager_busy mutation_failed : UpdateOutcome
  mutation_timed_out mutation_uncertain guest_unavailable liveness_failed : UpdateOutcome
  helper_outdated success : UpdateOutcome

-- `PackageUpdateStatus`
pub data UpdateStatus : Type 0 where
  never running success failed : UpdateStatus

-- `HealthCheckStatus`
pub data CheckStatus : Type 0 where
  never running completed : CheckStatus

-- `HealthState`
pub data HealthState : Type 0 where
  healthy degraded failed : HealthState

-- `HealthSource`
pub data HealthSource : Type 0 where
  manual update autoremove : HealthSource

-- `HealthDpkgState`
pub data DpkgState : Type 0 where
  ok interrupted pending busy lock_unknown changed : DpkgState

-- `HealthReason`
pub data HealthReason : Type 0 where
  guest_unavailable guest_exec_failed timeout helper_outdated protocol_mismatch : HealthReason
  transport_failed malformed_evidence unsupported_guest package_manager_busy : HealthReason
  dpkg_pending dpkg_interrupted dpkg_lock_unknown guest_changed : HealthReason

-- `PackageScanError`
pub record ScanError : Type 0 where
  pub failure : ScanFailure
  pub message : Text

-- `PackageUpdateError`
pub record UpdateError : Type 0 where
  pub outcome : UpdateOutcome
  pub message : Text

-- `PackageHealthError`
pub record HealthError : Type 0 where
  pub reason : HealthReason
  pub message : Text

-- `PendingPackage`
pub record PendingPackage : Type 0 where
  pub name : Text
  pub architecture : Text
  pub installed_version : Text
  pub candidate_version : Text
  pub origin : Option Text
  pub security : Option Bool

-- `RemovablePackage`
pub record RemovablePackage : Type 0 where
  pub name : Text
  pub architecture : Text
  pub installed_version : Text

-- `CleanupEvidence`
pub record CleanupEvidence : Type 0 where
  pub candidates : List RemovablePackage
  pub observed_at : ℕ

-- `PackageScanResult`
pub record ScanResult : Type 0 where
  pub os_id : Text
  pub os_version : Text
  pub packages : List PendingPackage
  pub reboot_required : Option Bool
  pub not_upgraded_count : ℕ

-- An installed package: its name and its architecture.
pub record PackageId : Type 0 where
  pub name : Text
  pub architecture : Text

-- `PackageUpdateRecord`
pub record UpdateRecord : Type 0 where
  pub status : UpdateStatus
  pub last_attempt : Option ℕ
  pub outcome : Option UpdateOutcome
  pub snapshot_skipped : Bool
  pub snapshot_retained : Bool
  pub snapshot_uncertain : Bool
  pub snapshot_cleanup_failed : Bool
  pub snapshot_name : Option Text
  pub liveness : Option Bool
  pub changed_package_count : Option ℕ
  pub error_message : Option Text

-- `PackageUpdateRecord()`
abbrev pub no_update : UpdateRecord
no_update = record {
  status = UpdateStatus.never;
  last_attempt = none;
  outcome = none;
  snapshot_skipped = false;
  snapshot_retained = false;
  snapshot_uncertain = false;
  snapshot_cleanup_failed = false;
  snapshot_name = none;
  liveness = none;
  changed_package_count = none;
  error_message = none;
}

-- `PackageScanRecord`
pub record ScanRecord : Type 0 where
  pub status : ScanStatus
  pub last_attempt : Option ℕ
  pub result : Option ScanResult
  pub failure : Option ScanFailure
  pub error_message : Option Text
  pub token : Option Text
  pub reviewed : Bool

-- `PackageScanRecord()`
abbrev pub no_scan : ScanRecord
no_scan = record {
  status = ScanStatus.never;
  last_attempt = none;
  result = none;
  failure = none;
  error_message = none;
  token = none;
  reviewed = false;
}

-- `PackageHealthEvidence`
pub record HealthEvidence : Type 0 where
  pub guest_exec : Bool
  pub guest_exec_unavailable : Bool
  pub dpkg : Option DpkgState
  pub unfinished_package_count : Option ℕ
  pub reboot_required : Option Bool

-- `PackageHealthOutcome`
pub record HealthOutcome : Type 0 where
  pub state : Option HealthState
  pub reason : Option HealthReason
  pub evidence : Option HealthEvidence

-- `PackageHealthRecord`
pub record HealthRecord : Type 0 where
  pub check_status : CheckStatus
  pub state : Option HealthState
  pub reason : Option HealthReason
  pub source : Option HealthSource
  pub checked_at : Option ℕ
  pub guest_exec : Option Bool
  pub dpkg : Option DpkgState
  pub unfinished_package_count : Option ℕ
  pub reboot_required : Option Bool

-- `PackageHealthRecord()`
abbrev pub no_health : HealthRecord
no_health = record {
  check_status = CheckStatus.never;
  state = none;
  reason = none;
  source = none;
  checked_at = none;
  guest_exec = none;
  dpkg = none;
  unfinished_package_count = none;
  reboot_required = none;
}

-- `status is PackageScanStatus.RUNNING`
abbrev pub scan_running : ScanStatus → Bool
scan_running ScanStatus.running = true
scan_running _ = false

-- `status is PackageScanStatus.SUCCESS`
abbrev pub scan_success : ScanStatus → Bool
scan_success ScanStatus.success = true
scan_success _ = false

-- `status is PackageUpdateStatus.RUNNING`
abbrev pub update_running : UpdateStatus → Bool
update_running UpdateStatus.running = true
update_running _ = false

-- `status is PackageUpdateStatus.SUCCESS`
abbrev pub update_success : UpdateStatus → Bool
update_success UpdateStatus.success = true
update_success _ = false

-- `check_status is HealthCheckStatus.RUNNING`
abbrev pub check_running : CheckStatus → Bool
check_running CheckStatus.running = true
check_running _ = false
