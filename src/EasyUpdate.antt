-- ===== src/EasyUpdate.antt =====
-- Easy Update (custom_components/hubinet_ops/easy_update.py): the confirmation of the current plan
-- and the start of Update in one synchronous stretch, over the operations of `PackageManager`.
pub mod Follow
pub mod Resolve
pub mod Accept
pub mod Run
pub mod Examples
use hubinet_ops_next.Prelude.{
  ℕ, Bool, true, false, not, ◌&&◌, ◌||◌, Option, none, some, List, [], ◌∷◌, Text, codes, text_eq,
  if◌then◌else◌, is_empty, String,
}
use hubinet_ops_next.Prelude.Results.{Result, ok, err}
use hubinet_ops_next.Dict.{Key, member}
use hubinet_ops_next.Models.{
  ScanRecord, ScanResult, UpdateRecord, UpdateError, scan_success, update_running, check_running,
}
use hubinet_ops_next.Manager.State.{
  Manager, scan_record, update_record, cleanup_record, health_record,
}
use hubinet_ops_next.Manager.Scan.{confirm_review}
use hubinet_ops_next.Manager.Update.{Attempt, PlanRow, start_update}

-- What the coordinator shows of the target: whether its last update succeeded, whether the
-- container is there and running, whether VM.Snapshot is granted, and whether the guest's Create
-- button is at work.
pub record Target : Type 0 where
  pub last_update_success : Bool
  pub is_running : Bool
  pub snapshot_permission : Bool
  pub create_running : Bool

-- A `ServiceValidationError` and a `HomeAssistantError` by their translation key, and `_rejected`
-- by its reason.
pub data Refusal : Type 0 where
  invalid : Text → Refusal
  failed : Text → Refusal
  rejected : Text → Refusal

abbrev pub refused : String → Refusal
refused s = invalid (codes s)

-- The arguments of the service call; `isoformat` prints a time.
pub record Call : Type 0 where
  pub isoformat : ℕ → Text
  pub expected_scan_attempt : Option Text
  pub skip_snapshot : Bool

-- Whether the scan is the one that the caller saw.
unfoldable pub is_expected : Call → Option ℕ → Bool
is_expected c last = elim c.expected_scan_attempt [
  | none ↦ true
  | some seen ↦ elim last [ none ↦ false | some at ↦ text_eq (c.isoformat at) seen ]
]

-- Whether the manager has an operation for this very target.
unfoldable pub is_active : Key → Manager → Bool
unfolding member update_record cleanup_record health_record
is_active k m =
    member k m.restore_reserved
    || (update_running (update_record k m).status
        || (update_running (cleanup_record k m).status
            || check_running (health_record k m).check_status))

-- The token and the packages of a scan that Update can go on from.
abbrev current_of : Bool → Option ScanResult → Option Text → Option (Text × ScanResult)
current_of true (some x) (some token) = some (token, x)
current_of _ _ _ = none

unfoldable pub current_scan : ScanRecord → Option (Text × ScanResult)
current_scan r = current_of (scan_success r.status) r.result r.token

-- What comes after the prechecks.
abbrev started :
    Key
    → Result UpdateError (Attempt (List PlanRow)) × Manager
    → Result Refusal UpdateRecord × Manager
started k (ok x, m) = (ok (update_record k m), m)
started k (err e, m) = (err (rejected e.message), m)

abbrev reviewed : Key → Call → Target → ℕ → Bool × Manager → Result Refusal UpdateRecord × Manager
reviewed k c g at (true, m) =
    started k (start_update k true g.snapshot_permission c.skip_snapshot at m)
reviewed k c g at (false, m) = (err (refused "easy_update_no_current_scan"), m)

-- The prechecks on a current scan.
abbrev checked :
    Key → Call → Target → ℕ → Manager → Text → ScanResult → Result Refusal UpdateRecord × Manager
checked k c g at m token x =
    if is_empty x.packages
    then (err (refused "easy_update_nothing_to_update"), m)
    else if not (is_expected c (scan_record k m).last_attempt)
    then (err (refused "easy_update_scan_changed"), m)
    else if not c.skip_snapshot && not g.snapshot_permission
    then (err (rejected (codes "VM.Snapshot permission is required for package updates")), m)
    else if c.skip_snapshot && g.create_running
    then (err (failed (codes "snapshot_create_running")), m)
    else if is_active k m
    then (err (rejected (codes "another package operation is active for this LXC")), m)
    else reviewed k c g at (confirm_review k token m)

abbrev with_scan :
    Key
    → Call
    → Target
    → ℕ
    → Manager
    → Option (Text × ScanResult)
    → Result Refusal UpdateRecord × Manager
with_scan k c g at m none = (err (refused "easy_update_no_current_scan"), m)
with_scan k c g at m (some (token, x)) = checked k c g at m token x

-- `async_start_easy_update`, behind the resolution of the target
unfoldable pub start_easy_update :
    Key → Call → Target → ℕ → Manager → Result Refusal UpdateRecord × Manager
unfolding current_scan is_active is_expected scan_record update_record
start_easy_update k c g at m =
    if not g.last_update_success
    then (err (refused "easy_update_not_running"), m)
    else if not g.is_running
    then (err (refused "easy_update_not_running"), m)
    else with_scan k c g at m (current_scan (scan_record k m))
