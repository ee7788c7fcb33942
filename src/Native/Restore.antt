-- ===== src/Native/Restore.antt =====
-- The Restore button (custom_components/hubinet_ops/snapshot_restore.py), over the reservation of
-- `PackageManager`.
use hubinet_ops_next.Prelude.{
  Bool, true, false, not, Option, none, some, Text, codes, if◌then◌else◌, String,
}
use hubinet_ops_next.Prelude.Results.{Result, ok, err}
use hubinet_ops_next.Dict.{Key}
use hubinet_ops_next.Models.{UpdateError}
use hubinet_ops_next.Manager.State.{Manager}
use hubinet_ops_next.Manager.Restore.{begin_restore, invalidate_restore_target, end_restore}
use hubinet_ops_next.Native.{Rows, Waited, answered, raised, cancelled, validate_snapshot}
use hubinet_ops_next.Native.Task.{RestoreOutcome, RestoreResult}
use hubinet_ops_next.Native.Submit.{Outside, Reply, Watch, result_of, rollback_snapshot}

-- `SnapshotKind`
pub data SnapshotKind : Type 0 where
  qemu lxc : SnapshotKind

abbrev pub is_lxc : SnapshotKind → Bool
is_lxc qemu = false
is_lxc lxc = true

-- What the button sees: whether Create is at work, the name that is selected, whether the guest is
-- there, and whether the permissions are.
pub record Button : Type 0 where
  pub create_running : Bool
  pub selected : Option Text
  pub target_exists : Bool
  pub permitted : Bool

-- `_async_run_restore` is launched with these, or the press ends with an error: its translation
-- key, or none where it is the one of the background task.
pub record Launched : Type 0 where
  pub snapshot_name : Text
  pub reserved : Bool

abbrev pub Pressed : Type 0
Pressed = Result (Option Text) Launched × Manager

abbrev pub refuse : String → Manager → Pressed
refuse s m = (err (some (codes s)), m)

-- The start of the background task, which may raise.
abbrev launch : Bool → Key → Text → Bool → Manager → Pressed
launch true k name reserved m = (ok (record { snapshot_name = name; reserved = reserved }), m)
launch false k name reserved m = (err none, if reserved then end_restore k m else m)

abbrev reserve : Bool → Key → Text → Result UpdateError (Unit {0}) × Manager → Pressed
reserve starts k name (ok x, m) = launch starts k name true m
reserve starts k name (err e, m) = refuse "snapshot_restore_busy" m

abbrev selected_of : SnapshotKind → Key → Button → Bool → Manager → Option Text → Pressed
selected_of kind k b starts m none = refuse "snapshot_restore_no_selection" m
selected_of kind k b starts m (some name) =
    if not b.target_exists
    then refuse "snapshot_restore_guest_missing" m
    else if not b.permitted
    then refuse "snapshot_restore_permission_denied" m
    else if is_lxc kind
    then reserve starts k name (begin_restore k m)
    else launch starts k name false m

-- `SnapshotRestoreButtonMixin.async_press`, with whether the background task can be made
unfoldable pub press : SnapshotKind → Key → Button → Bool → Manager → Pressed
unfolding begin_restore
press kind k b starts m =
    if b.create_running
    then refuse "snapshot_create_running" m
    else selected_of kind k b starts m b.selected

-- How `_async_run_restore` ends, with `submission_may_have_started` and
-- `package_truth_invalidated`.
pub record Ended : Type 0 where
  pub result : RestoreResult
  pub submitted : Bool
  pub invalidated : Bool
  pub was_cancelled : Bool
  pub manager : Manager

-- The release of the reservation.
unfoldable pub release : Bool → Key → RestoreOutcome → Manager → Manager
release false k o m = m
release true k RestoreOutcome.uncertain m = m
release true k _ m = end_restore k m

-- What the calls come to: the listing, whether Create is at work then, the reply, the observation,
-- and what else happens to the manager while the run waits for Proxmox.
pub record Calls : Type 0 where
  pub listing : Waited Rows
  pub create_running : Bool
  pub reply : Reply
  pub watch : Watch
  pub meanwhile : Manager → Manager

abbrev pub interrupted_reason : String
interrupted_reason = "Restore observation was interrupted"

abbrev pub unexpected_reason : String
unexpected_reason = "unexpected Restore failure"

module _ (o : Outside) (kind : SnapshotKind) (k : Key) (name : Text) (reserved : Bool) where
  -- The end of a run that has submitted nothing, with its reason.
  abbrev pub not_submitted : Text → Bool → Manager → Ended
  not_submitted reason was_cancelled m = record {
    result = result_of RestoreOutcome.not_started reason;
    submitted = false;
    invalidated = false;
    was_cancelled = was_cancelled;
    manager = release reserved k RestoreOutcome.not_started m;
  }

  -- The end of a run that has.
  abbrev pub submitted_end : RestoreResult → Bool → Manager → Ended
  submitted_end r was_cancelled m = record {
    result = r;
    submitted = true;
    invalidated = is_lxc kind;
    was_cancelled = was_cancelled;
    manager = release reserved k r.outcome m;
  }

  abbrev pub after_submission : Waited RestoreResult → Manager → Ended
  after_submission (answered r) m = submitted_end r false m
  after_submission (raised e) m =
      submitted_end (result_of RestoreOutcome.uncertain (codes unexpected_reason)) false m
  after_submission cancelled m =
      submitted_end (result_of RestoreOutcome.uncertain (codes interrupted_reason)) true m

  abbrev pub submit : Calls → Manager → Ended
  submit c m = after_submission (rollback_snapshot o k.node name c.reply c.watch) (c.meanwhile m)

  -- An LXC loses its package evidence before the submission; the error is a `RuntimeError`.
  abbrev pub submit_lxc : Calls → Result Text (Unit {0}) × Manager → Ended
  submit_lxc c (ok x, m) = submit c m
  submit_lxc c (err e, m) = not_submitted (codes unexpected_reason) false m

  unfoldable pub after_validation : Calls → Waited (Result Text Bool) → Manager → Ended
  unfolding release rollback_snapshot invalidate_restore_target
  after_validation c (answered (err e)) m = not_submitted e false m
  after_validation c (answered (ok false)) m =
      not_submitted (codes "the selected snapshot is no longer eligible or present") false m
  after_validation c (answered (ok true)) m =
      if c.create_running
      then not_submitted (codes "snapshot_create_running") false m
      else if is_lxc kind
      then submit_lxc c (invalidate_restore_target k m)
      else submit c m
  after_validation c (raised e) m = not_submitted (codes unexpected_reason) false m
  after_validation c cancelled m = not_submitted (codes interrupted_reason) true m

  -- `_async_run_restore`, from the end of its first wait
  unfoldable pub run_restore : Calls → Manager → Ended
  unfolding validate_snapshot after_validation
  run_restore c m = after_validation c (validate_snapshot name c.listing) m
