-- ===== src/Native/Delete.antt =====
-- The Delete button (custom_components/hubinet_ops/snapshot_restore.py).
use hubinet_ops_next.Prelude.{
  Bool, true, false, not, ◌&&◌, ◌||◌, Option, none, some, Text, codes, if◌then◌else◌, starts_with,
}
use hubinet_ops_next.Prelude.Results.{Result, ok, err}
use hubinet_ops_next.Dict.{Key}
use hubinet_ops_next.Models.{update_running}
use hubinet_ops_next.Snapshots.{prefix}
use hubinet_ops_next.Manager.State.{Manager, update_record, cleanup_record}
use hubinet_ops_next.Native.{Rows, Waited, answered, raised, cancelled, validate_snapshot}
use hubinet_ops_next.Native.Task.{RestoreOutcome, RestoreResult}
use hubinet_ops_next.Native.Submit.{Outside, Reply, Watch, result_of, native_delete}
use hubinet_ops_next.Native.Restore.{SnapshotKind, is_lxc, Button}

-- `_package_snapshot_conflict`
unfoldable pub package_snapshot_conflict : SnapshotKind → Key → Text → Manager → Bool
unfolding update_record cleanup_record starts_with
package_snapshot_conflict kind k name m =
    (is_lxc kind && starts_with prefix name)
    && (update_running (update_record k m).status || update_running (cleanup_record k m).status)

abbrev selected_of :
    SnapshotKind → Key → Button → Bool → Manager → Option Text → Result (Option Text) Text
selected_of kind k b starts m none = err (some (codes "snapshot_delete_no_selection"))
selected_of kind k b starts m (some name) =
    if not b.target_exists
    then err (some (codes "snapshot_delete_guest_missing"))
    else if not b.permitted
    then err (some (codes "snapshot_delete_permission_denied"))
    else if package_snapshot_conflict kind k name m
    then err (some (codes "snapshot_delete_package_running"))
    else if starts
    then ok name
    else err none

-- `SnapshotDeleteButtonMixin.async_press`, with whether the background task can be made: the name
-- that `_async_run_delete` is launched with
unfoldable pub press_delete :
    SnapshotKind → Key → Button → Bool → Manager → Result (Option Text) Text
unfolding package_snapshot_conflict
press_delete kind k b starts m =
    if b.create_running
    then err (some (codes "snapshot_create_running"))
    else selected_of kind k b starts m b.selected

-- How `_async_run_delete` ends, with `submission_may_have_started` and whether the choices are
-- refreshed.
pub record Deleted : Type 0 where
  pub result : RestoreResult
  pub submitted : Bool
  pub refreshed : Bool
  pub was_cancelled : Bool

-- What the calls come to, with the manager at the end of the first wait.
pub record DeleteCalls : Type 0 where
  pub listing : Waited Rows
  pub create_running : Bool
  pub manager : Manager
  pub reply : Reply
  pub watch : Watch

abbrev is_success : RestoreOutcome → Bool
is_success RestoreOutcome.success = true
is_success _ = false

abbrev pub delete_ended : Bool → Bool → RestoreResult → Deleted
delete_ended submitted was_cancelled r = record {
  result = r;
  submitted = submitted;
  refreshed = is_success r.outcome;
  was_cancelled = was_cancelled;
}

abbrev pub not_started : Text → Bool → Deleted
not_started reason was_cancelled =
    delete_ended false was_cancelled (result_of RestoreOutcome.not_started reason)

abbrev pub after_delete : Waited RestoreResult → Deleted
after_delete (answered r) = delete_ended true false r
after_delete (raised e) =
    delete_ended true false
      (result_of RestoreOutcome.uncertain (codes "unexpected snapshot Delete failure"))
after_delete cancelled =
    delete_ended true true
      (result_of RestoreOutcome.uncertain (codes "snapshot Delete observation was interrupted"))

module _ (o : Outside) (kind : SnapshotKind) (k : Key) (name : Text) where
  unfoldable pub after_listing : DeleteCalls → Waited (Result Text Bool) → Deleted
  unfolding native_delete package_snapshot_conflict
  after_listing c (answered (err e)) = not_started e false
  after_listing c (answered (ok false)) =
      not_started (codes "the selected snapshot is no longer eligible or present") false
  after_listing c (answered (ok true)) =
      if c.create_running
      then not_started (codes "snapshot_create_running") false
      else if package_snapshot_conflict kind k name c.manager
      then not_started (codes "snapshot_delete_package_running") false
      else after_delete (native_delete o k.node name c.reply c.watch)
  after_listing c (raised e) = not_started (codes "unexpected snapshot Delete failure") false
  after_listing c cancelled = not_started (codes "snapshot Delete observation was interrupted") true

  -- `_async_run_delete`
  unfoldable pub run_delete : DeleteCalls → Deleted
  unfolding validate_snapshot after_listing
  run_delete c = after_listing c (validate_snapshot name c.listing)
