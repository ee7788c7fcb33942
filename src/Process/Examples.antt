-- ===== src/Process/Examples.antt =====
-- Runs of Update and Autoremove on one host
-- (custom_components/hubinet_ops/packages/manager.py).
use hubinet_ops_next.Prelude.{
  ◌+◌, ◌≤◌, ◌≡◌, refl, Bool, true, false, none, List, [], ◌∷◌, ◌++◌, Text, codes, ◌==◌, text_eq,
  starts_with, if◌then◌else◌,
}
use hubinet_ops_next.Models.{PackageId, PendingPackage, RemovablePackage, UpdateStatus}
use hubinet_ops_next.Snapshots.{
  Unicode, missing, text, Row, Listing, rows, task, after_prefix, insert_name, is_absent,
  is_complete, is_letter, is_name_char, is_number, is_warning, name_matches, named_rows,
  only_complete, parse_task_status, require_upid, retained_names, retained_summary, valid_name,
}
use hubinet_ops_next.Process.{
  Progress, Failure, mutated, no_progress, Event, delete_submitted, World, Reply, Transported,
  entered, ask, transport, ◌>>=◌,
}
use hubinet_ops_next.Prelude.Results.{Result}
use hubinet_ops_next.Manager.Update.{PlanRow, package_plan, cleanup_plan}
use hubinet_ops_next.Process.History.{Complete, creations}
use hubinet_ops_next.Process.Plan.{same_plan, same_cleanup, rows_eq, removables_eq}
use hubinet_ops_next.Process.Run.{
  added_rows, bare_run, changed_package_count, changed_rows, check_plan, delete_or_keep,
  guarded_run, mutate, ping_once, require_liveness, take_snapshot, version_of,
}
use hubinet_ops_next.Process.Snapshot.{
  after_state, after_task, create_snapshot, delete_snapshot, list_snapshots, polled_state,
  submit_snapshot, submitted, wait_created, wait_for_task,
}
use hubinet_ops_next.Process.Outcome.{run_update, run_autoremove, update_outcome, cleanup_outcome}
use hubinet_ops_next.Process.Polls.{polls, wait_for_task-polls}
use hubinet_ops_next.Process.Ended.{Succeeded, Traced}
use hubinet_ops_next.Process.Attempt.{
  IsReviewed, IsShown, run_update-Protected, run_autoremove-Protected, update_success_honest,
  autoremove_success_honest, run_update-Traced, run_autoremove-Traced,
}

abbrev ascii : Unicode
ascii = record { is_digit = λ c. false; is_space = λ c. c == 32 }

abbrev snapshot : Text
snapshot = codes "hubinet-preupd-1"

-- The snapshot is listed until its deletion is submitted.
unfoldable pub deleted : List Event → Bool
deleted [] = false
deleted (delete_submitted n ∷ es) = true
deleted (e ∷ es) = deleted es

abbrev shown : List Event → Listing
shown es = if deleted es then rows [] else rows (Row.row (text snapshot) missing ∷ [])

abbrev installed : PackageId
installed = record { name = codes "bash"; architecture = codes "amd64" }

abbrev pending : PendingPackage
pending = record {
  name = codes "bash";
  architecture = codes "amd64";
  installed_version = codes "1";
  candidate_version = codes "2";
  origin = none;
  security = none;
}

abbrev row : PlanRow
row = record {
  name = codes "bash";
  architecture = codes "amd64";
  installed_version = codes "1";
  candidate_version = codes "2";
}

abbrev removable : RemovablePackage
removable = record {
  name = codes "bash";
  architecture = codes "amd64";
  installed_version = codes "1";
}

abbrev update_host : World PendingPackage
update_host = record {
  plan = λ es. Transported.returned (pending ∷ []);
  mutate = λ es.
      Transported.returned
        (record { before = (installed, codes "1") ∷ []; after = (installed, codes "2") ∷ [] });
  ping = λ es. Transported.returned true;
  status = λ es. Reply.returned (text (codes "running"));
  list = λ es. Reply.returned (shown es);
  submit = λ es. entered (Reply.returned (text (codes "UPID:1")));
  delete = λ es. Reply.returned (text (codes "UPID:2"));
  poll = λ es. Reply.returned (task (text (codes "stopped")) (text (codes "OK")));
  sleep = λ es. Reply.returned tt;
  new_name = λ es. snapshot;
}

abbrev cleanup_host : World RemovablePackage
cleanup_host = record {
  plan = λ es. Transported.returned (removable ∷ []);
  mutate = λ es.
      Transported.returned
        (record { before = (installed, codes "1") ∷ []; after = (installed, codes "2") ∷ [] });
  ping = λ es. Transported.returned true;
  status = λ es. Reply.returned (text (codes "running"));
  list = λ es. Reply.returned (shown es);
  submit = λ es. entered (Reply.returned (text (codes "UPID:1")));
  delete = λ es. Reply.returned (text (codes "UPID:2"));
  poll = λ es. Reply.returned (task (text (codes "stopped")) (text (codes "OK")));
  sleep = λ es. Reply.returned tt;
  new_name = λ es. snapshot;
}

abbrev updated : Result Failure Bool × Progress
updated = run_update ascii update_host (row ∷ []) false

abbrev cleaned : Result Failure Bool × Progress
cleaned = run_autoremove ascii cleanup_host (removable ∷ [])

abbrev no_more : List Text
no_more = []

-- The events before the mutation, and those after it.
unfoldable until_mutated : List Event → List Event
until_mutated [] = []
until_mutated (mutated ∷ es) = []
until_mutated (e ∷ es) = e ∷ until_mutated es

unfoldable since_mutated : List Event → List Event
since_mutated [] = []
since_mutated (mutated ∷ es) = es
since_mutated (e ∷ es) = since_mutated es

update_mutates :
    updated.1.events ≡ until_mutated updated.1.events ++ (mutated ∷ since_mutated updated.1.events)
unfolding run_update run_autoremove update_outcome cleanup_outcome deleted text_eq codes starts_with
    added_rows bare_run changed_package_count changed_rows check_plan delete_or_keep guarded_run
    mutate ping_once require_liveness take_snapshot version_of after_state after_task
    create_snapshot delete_snapshot list_snapshots polled_state submit_snapshot submitted
    wait_created wait_for_task ask transport ◌>>=◌ after_prefix insert_name is_absent is_complete
    is_letter is_name_char is_number is_warning name_matches named_rows only_complete
    parse_task_status require_upid retained_names retained_summary valid_name until_mutated
    since_mutated creations same_plan same_cleanup package_plan cleanup_plan rows_eq removables_eq
update_mutates = refl

update_submits : creations updated.1.events ≡ snapshot ∷ []
unfolding run_update run_autoremove update_outcome cleanup_outcome deleted text_eq codes starts_with
    added_rows bare_run changed_package_count changed_rows check_plan delete_or_keep guarded_run
    mutate ping_once require_liveness take_snapshot version_of after_state after_task
    create_snapshot delete_snapshot list_snapshots polled_state submit_snapshot submitted
    wait_created wait_for_task ask transport ◌>>=◌ after_prefix insert_name is_absent is_complete
    is_letter is_name_char is_number is_warning name_matches named_rows only_complete
    parse_task_status require_upid retained_names retained_summary valid_name until_mutated
    since_mutated creations same_plan same_cleanup package_plan cleanup_plan rows_eq removables_eq
update_submits = refl

update_reports : (update_outcome 5 false updated.0 updated.1).status ≡ UpdateStatus.success
unfolding run_update run_autoremove update_outcome cleanup_outcome deleted text_eq codes starts_with
    added_rows bare_run changed_package_count changed_rows check_plan delete_or_keep guarded_run
    mutate ping_once require_liveness take_snapshot version_of after_state after_task
    create_snapshot delete_snapshot list_snapshots polled_state submit_snapshot submitted
    wait_created wait_for_task ask transport ◌>>=◌ after_prefix insert_name is_absent is_complete
    is_letter is_name_char is_number is_warning name_matches named_rows only_complete
    parse_task_status require_upid retained_names retained_summary valid_name until_mutated
    since_mutated creations same_plan same_cleanup package_plan cleanup_plan rows_eq removables_eq
update_reports = refl

autoremove_mutates :
    cleaned.1.events ≡ until_mutated cleaned.1.events ++ (mutated ∷ since_mutated cleaned.1.events)
unfolding run_update run_autoremove update_outcome cleanup_outcome deleted text_eq codes starts_with
    added_rows bare_run changed_package_count changed_rows check_plan delete_or_keep guarded_run
    mutate ping_once require_liveness take_snapshot version_of after_state after_task
    create_snapshot delete_snapshot list_snapshots polled_state submit_snapshot submitted
    wait_created wait_for_task ask transport ◌>>=◌ after_prefix insert_name is_absent is_complete
    is_letter is_name_char is_number is_warning name_matches named_rows only_complete
    parse_task_status require_upid retained_names retained_summary valid_name until_mutated
    since_mutated creations same_plan same_cleanup package_plan cleanup_plan rows_eq removables_eq
autoremove_mutates = refl

autoremove_submits : creations cleaned.1.events ≡ snapshot ∷ []
unfolding run_update run_autoremove update_outcome cleanup_outcome deleted text_eq codes starts_with
    added_rows bare_run changed_package_count changed_rows check_plan delete_or_keep guarded_run
    mutate ping_once require_liveness take_snapshot version_of after_state after_task
    create_snapshot delete_snapshot list_snapshots polled_state submit_snapshot submitted
    wait_created wait_for_task ask transport ◌>>=◌ after_prefix insert_name is_absent is_complete
    is_letter is_name_char is_number is_warning name_matches named_rows only_complete
    parse_task_status require_upid retained_names retained_summary valid_name until_mutated
    since_mutated creations same_plan same_cleanup package_plan cleanup_plan rows_eq removables_eq
autoremove_submits = refl

autoremove_reports : (cleanup_outcome 5 cleaned.0 cleaned.1).status ≡ UpdateStatus.success
unfolding run_update run_autoremove update_outcome cleanup_outcome deleted text_eq codes starts_with
    added_rows bare_run changed_package_count changed_rows check_plan delete_or_keep guarded_run
    mutate ping_once require_liveness take_snapshot version_of after_state after_task
    create_snapshot delete_snapshot list_snapshots polled_state submit_snapshot submitted
    wait_created wait_for_task ask transport ◌>>=◌ after_prefix insert_name is_absent is_complete
    is_letter is_name_char is_number is_warning name_matches named_rows only_complete
    parse_task_status require_upid retained_names retained_summary valid_name until_mutated
    since_mutated creations same_plan same_cleanup package_plan cleanup_plan rows_eq removables_eq
autoremove_reports = refl

run_update-Protected_example :
    (n : Text) × Complete ascii update_host
      (IsReviewed (row ∷ []))
      n
      (until_mutated updated.1.events)
run_update-Protected_example =
    run_update-Protected ascii update_host (row ∷ []) (until_mutated updated.1.events)
      (since_mutated updated.1.events) update_mutates

update_success_honest_example :
    Succeeded ascii update_host
      (IsReviewed (row ∷ []))
      (update_outcome 5 false updated.0 updated.1)
      updated.1.events
update_success_honest_example = update_success_honest ascii update_host (row ∷ []) 5 update_reports

run_update-Traced_example :
    (no_more ≡ no_more)
    × Traced ascii update_host
        (IsReviewed (row ∷ []))
        snapshot
        (update_outcome 5 false updated.0 updated.1)
        updated.1.events
run_update-Traced_example =
    run_update-Traced ascii update_host (row ∷ []) 5 snapshot [] update_submits

run_autoremove-Protected_example :
    (n : Text) × Complete ascii cleanup_host
      (IsShown (removable ∷ []))
      n
      (until_mutated cleaned.1.events)
run_autoremove-Protected_example =
    run_autoremove-Protected ascii cleanup_host (removable ∷ []) (until_mutated cleaned.1.events)
      (since_mutated cleaned.1.events) autoremove_mutates

autoremove_success_honest_example :
    Succeeded ascii cleanup_host
      (IsShown (removable ∷ []))
      (cleanup_outcome 5 cleaned.0 cleaned.1)
      cleaned.1.events
autoremove_success_honest_example =
    autoremove_success_honest ascii cleanup_host (removable ∷ []) 5 autoremove_reports

run_autoremove-Traced_example :
    (no_more ≡ no_more)
    × Traced ascii cleanup_host
        (IsShown (removable ∷ []))
        snapshot
        (cleanup_outcome 5 cleaned.0 cleaned.1)
        cleaned.1.events
run_autoremove-Traced_example =
    run_autoremove-Traced ascii cleanup_host (removable ∷ []) 5 snapshot [] autoremove_submits

wait_for_task-polls_example :
    polls (wait_for_task ascii update_host (codes "UPID:1") 120 no_progress).1.events
    ≤ polls [] + 120
wait_for_task-polls_example = wait_for_task-polls ascii update_host (codes "UPID:1") 120 no_progress
