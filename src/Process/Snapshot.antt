-- ===== src/Process/Snapshot.antt =====
-- The waits of custom_components/hubinet_ops/packages/snapshots.py: polling a task, creating and
-- deleting a snapshot.
use hubinet_ops_next.Prelude.{
  ℕ, zero, suc, Bool, true, false, [], ◌∷◌, ◌++◌, Text, codes, starts_with, if◌then◌else◌,
}
use hubinet_ops_next.Prelude.Results.{Result, ok, err}
use hubinet_ops_next.Snapshots.{
  Unicode, Field, Listing, Payload, task, no_mapping, TaskState, SnapshotError, field_is, prefix,
  valid_name, is_complete, is_absent, parse_task_status, require_upid,
}
use hubinet_ops_next.Process.{
  listed, slept, polled, create_submitted, delete_submitted, World, Failure, Submission, entered,
  not_entered, not_entered_cancelled, snapshot_failed, unexpected, Proc, ◌>>=◌, ◌>>◌, pure, fail,
  replied, ask, lift, require, snapshot_error,
}

abbrev pub is_stopped : Payload → Bool
is_stopped (task status exit) = field_is (codes "stopped") status
is_stopped no_mapping = false

-- What a poll does with the state of the task; `next` is the rest of the loop.
unfoldable pub after_state : Proc (Unit {0}) → Payload → TaskState → Proc (Unit {0})
after_state next payload TaskState.success = pure tt
after_state next payload TaskState.failed =
    fail (snapshot_error "PVE snapshot task did not succeed" true (is_stopped payload))
after_state next payload TaskState.running = next

abbrev pub submission_failed : Failure
submission_failed = snapshot_error "could not submit native PVE snapshot" true false

-- The native POST: it is marked when it is entered.
unfoldable pub submitted : Text → Submission → Proc Field
submitted name (entered r) p = (
  replied submission_failed r,
  record p { events = p.events ++ create_submitted name ∷ []; snapshot_submitted = true },
)
submitted name not_entered p = (err submission_failed, p)
submitted name not_entered_cancelled p = (err Failure.cancelled, p)

-- A listing after a failed task may show that the snapshot is not there.
abbrev pub withdraw : Text → SnapshotError → Result Failure Listing → Failure
withdraw name e (ok l) =
    if is_absent l name then snapshot_failed (record e { may_exist = false }) else snapshot_failed e
withdraw name e (err Failure.cancelled) = Failure.cancelled
withdraw name e (err f) = snapshot_failed e

abbrev pub deletion_failed : Failure
deletion_failed = snapshot_error "could not submit native PVE snapshot deletion" true false

abbrev pub upid_or : Failure → Result SnapshotError Text → Proc Text
upid_or f (ok s) = pure s
upid_or f (err e) = fail f

module _ {P : Type 0} (u : Unicode) (w : World P) where
  -- `async_list_snapshots`, with the `may_exist` that the caller gives its error
  unfoldable pub list_snapshots : Bool → Proc Listing
  unfolding ask
  list_snapshots may =
      ask listed w.list (snapshot_error "could not list native PVE snapshots" may false)

  unfoldable pub polled_state : Proc (Unit {0}) → Payload → Proc (Unit {0})
  unfolding after_state
  polled_state next payload = after_state next payload (parse_task_status u payload)

  -- `_async_wait_for_task`, over the polls that are left; the last one is not followed by a sleep.
  unfoldable pub wait_for_task : Text → ℕ → Proc (Unit {0})
  wait_for_task upid zero =
      fail (snapshot_error "PVE snapshot task did not finish before timeout" true false)
  wait_for_task upid (suc zero) =
      ask (polled upid) w.poll (snapshot_error "could not read PVE snapshot task status" true false)
      >>= polled_state (wait_for_task upid zero)
  wait_for_task upid (suc (suc n)) =
      ask (polled upid) w.poll (snapshot_error "could not read PVE snapshot task status" true false)
      >>= polled_state (ask slept w.sleep unexpected >>= λ _. wait_for_task upid (suc n))

  unfoldable pub submit_snapshot : Text → Proc Field
  unfolding submitted
  submit_snapshot name p = submitted name (w.submit p.events) p

  unfoldable pub after_task : Text → Result Failure (Unit {0}) → Proc (Unit {0})
  unfolding list_snapshots
  after_task name (ok x) p = (ok tt, p)
  after_task name (err (snapshot_failed e)) p =
      if e.terminal_failure
      then (let (r, p') = list_snapshots false p in (err (withdraw name e r), p'))
      else (err (snapshot_failed e), p)
  after_task name (err f) p = (err f, p)

  -- The handler round the wait of `async_create_snapshot`.
  unfoldable pub wait_created : Text → Text → ℕ → Proc (Unit {0})
  wait_created name upid polls p =
      after_task name (wait_for_task upid polls p).0 (wait_for_task upid polls p).1

  -- `async_create_snapshot`; a name that is not valid raises `ValueError`.
  unfoldable pub create_snapshot : ℕ → Text → Proc (Unit {0})
  create_snapshot polls name = do
    require (valid_name name) unexpected
    raw ← submit_snapshot name
    upid ← lift (require_upid u true raw)
    wait_created name upid polls
    l ← list_snapshots true
    require (is_complete l name)
        (snapshot_error "native PVE snapshot could not be confirmed complete" true false)

  -- `async_delete_snapshot`
  unfoldable pub delete_snapshot : ℕ → Text → Proc (Unit {0})
  delete_snapshot polls name = do
    require (valid_name name) unexpected
    require (starts_with prefix name)
        (snapshot_error "refusing to delete a non-Hubinet snapshot" true false)
    raw ← ask (delete_submitted name) w.delete deletion_failed
    upid ← upid_or deletion_failed (require_upid u false raw)
    wait_for_task upid polls
    l ← list_snapshots true
    require (is_absent l name)
        (snapshot_error "native PVE snapshot deletion could not be confirmed" true false)
