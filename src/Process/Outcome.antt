-- ===== src/Process/Outcome.antt =====
-- The records that `_async_run_update` and `_async_run_autoremove` end with, from what left the body
-- and the local variables (custom_components/hubinet_ops/packages/manager.py).
use hubinet_ops_next.Prelude.{
  ℕ, Bool, true, false, Option, none, some, List, Text, codes, if◌then◌else◌, not, ◌&&◌, ◌||◌, take,
  String,
}
use hubinet_ops_next.Prelude.Results.{Result, ok, err}
use hubinet_ops_next.Models.{
  PendingPackage, RemovablePackage, UpdateOutcome, UpdateStatus, UpdateRecord, no_update,
}
use hubinet_ops_next.Manager.Scan.{max_error_message_length}
use hubinet_ops_next.Snapshots.{Unicode}
use hubinet_ops_next.Process.{
  World, Failure, update_failed, snapshot_failed, unexpected, Progress, no_progress,
}
use hubinet_ops_next.Manager.Update.{PlanRow}
use hubinet_ops_next.Process.Plan.{same_plan, same_cleanup}
use hubinet_ops_next.Process.Run.{guarded_run, bare_run}

-- `outcome in {GUEST_UNAVAILABLE, LIVENESS_FAILED}` makes the liveness false.
abbrev dead : UpdateOutcome → Option Bool
dead UpdateOutcome.guest_unavailable = some false
dead UpdateOutcome.liveness_failed = some false
dead _ = none

abbrev name_if : Bool → Progress → Option Text
name_if b p = if b then p.snapshot_name else none

-- What an interrupted or unexpectedly failed attempt may have done.
abbrev interrupted_outcome : Bool → Progress → UpdateOutcome
interrupted_outcome plan_first p =
    if p.mutation_started
    then UpdateOutcome.mutation_uncertain
    else if p.snapshot_started || not plan_first
    then UpdateOutcome.snapshot_failed
    else UpdateOutcome.plan_failed

abbrev interrupted : Bool → ℕ → Bool → Progress → String → UpdateRecord
interrupted plan_first at skip p message = record no_update {
  status = UpdateStatus.failed;
  last_attempt = some at;
  outcome = some (interrupted_outcome plan_first p);
  snapshot_skipped = skip;
  snapshot_retained = p.snapshot_ready;
  snapshot_uncertain = p.snapshot_submitted && not p.snapshot_ready;
  snapshot_name = name_if (p.snapshot_ready || p.snapshot_submitted) p;
  changed_package_count = p.changed_count;
  error_message = some (codes message);
}

-- The words in which Update and Autoremove report.
record Words : Type 0 where
  left_behind : String
  cancelled : String
  failed : String

-- The handlers. `plan_first` is whether an attempt that has not come to its snapshot is reported
-- as PLAN_FAILED, as Update does and Autoremove does not.
handle : Bool → Words → ℕ → Bool → Result Failure Bool → Progress → UpdateRecord
handle plan_first words at skip (ok left) p =
    (let done = record no_update {
      status = UpdateStatus.success;
      last_attempt = some at;
      outcome = some UpdateOutcome.success;
      snapshot_skipped = skip;
      liveness = some true;
      changed_package_count = p.changed_count;
    } in
      if left
      then record done {
        snapshot_retained = true;
        snapshot_cleanup_failed = true;
        snapshot_name = p.snapshot_name;
        error_message = some (codes words.left_behind);
      }
      else done)
handle plan_first words at skip (err (update_failed e)) p = record no_update {
  status = UpdateStatus.failed;
  last_attempt = some at;
  outcome = some e.outcome;
  snapshot_skipped = skip;
  snapshot_retained = p.snapshot_ready;
  snapshot_name = name_if p.snapshot_ready p;
  liveness = dead e.outcome;
  changed_package_count = p.changed_count;
  error_message = some (take max_error_message_length e.message);
}
handle plan_first words at skip (err (snapshot_failed e)) p = record no_update {
  status = UpdateStatus.failed;
  last_attempt = some at;
  outcome = some UpdateOutcome.snapshot_failed;
  snapshot_skipped = skip;
  snapshot_uncertain = e.may_exist;
  snapshot_name = name_if e.may_exist p;
  error_message = some (take max_error_message_length e.message);
}
handle plan_first words at skip (err Failure.cancelled) p =
    interrupted plan_first at skip p words.cancelled
handle plan_first words at skip (err unexpected) p = interrupted plan_first at skip p words.failed

abbrev update_words : Words
update_words = record {
  left_behind = "package update succeeded but snapshot cleanup failed";
  cancelled = "package update was interrupted";
  failed = "unexpected package update failure";
}

abbrev cleanup_words : Words
cleanup_words = record {
  left_behind = "package cleanup succeeded but snapshot cleanup failed";
  cancelled = "package cleanup was interrupted";
  failed = "unexpected package cleanup failure";
}

-- The record of `_async_run_update`.
unfoldable pub update_outcome : ℕ → Bool → Result Failure Bool → Progress → UpdateRecord
unfolding handle
update_outcome = handle true update_words

-- The record of `_async_run_autoremove`, which never skips its snapshot.
unfoldable pub cleanup_outcome : ℕ → Result Failure Bool → Progress → UpdateRecord
unfolding handle
cleanup_outcome at = handle false cleanup_words at false

-- The body of `_async_run_update` over the plan that was reviewed, with the local variables at its
-- end.
unfoldable pub run_update :
    Unicode → World PendingPackage → List PlanRow → Bool → Result Failure Bool × Progress
run_update u w reviewed true =
    bare_run u w (same_plan reviewed) "the package plan changed; scan, review, and approve again"
      no_progress
run_update u w reviewed false =
    guarded_run u w (same_plan reviewed) "the package plan changed; scan, review, and approve again"
      no_progress

-- That of `_async_run_autoremove` over the cleanup plan that was shown.
unfoldable pub run_autoremove :
    Unicode → World RemovablePackage → List RemovablePackage → Result Failure Bool × Progress
run_autoremove u w shown =
    guarded_run u w (same_cleanup shown) "the cleanup plan changed; scan again" no_progress
