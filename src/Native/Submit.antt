-- ===== src/Native/Submit.antt =====
-- The submission of a native Rollback or Delete (custom_components/hubinet_ops/snapshots.py).
use hubinet_ops_next.Prelude.{
  ℕ, Bool, false, not, ◌&&◌, Option, none, some, Text, codes, text_eq, ltb, leb, ◌==◌,
  if◌then◌else◌, length,
}
use hubinet_ops_next.Snapshots.{Field, text}
use hubinet_ops_next.Native.{is_eligible, Waited, answered, cancelled}
use hubinet_ops_next.Native.Task.{RestoreOutcome, RestoreResult, Look, bounded_reason, observe_task}

-- What outside code is asked: `str.isspace`, and the node of `Tasks.decode_upid`, `none` where it
-- raises.
pub record Outside : Type 0 where
  pub is_space : ℕ → Bool
  pub decode_upid : Text → Option (Option Text)

-- The reply to a submission: the value returned, a `ResourceException` with its status code and
-- text, another exception with its text, or the cancellation.
pub data Reply : Type 0 where
  accepted : Field → Reply
  resource_error : ℕ → Text → Reply
  other_error : Text → Reply
  interrupted : Reply

-- The observation by the executor: the time it begins at and what its attempts see, or the
-- cancellation of the wait.
pub data Watch : Type 0 where
  watched : ℕ → (ℕ → Look) → Watch
  interrupted : Watch

-- `RESTORE_OBSERVATION_TIMEOUT` and `_MAX_OBSERVATION_ATTEMPTS`
abbrev pub observation_timeout : ℕ
observation_timeout = 600

abbrev pub max_attempts : ℕ
max_attempts = 3

abbrev pub result_of : RestoreOutcome → Text → RestoreResult
result_of o reason = record { outcome = o; upid = none; reason = some reason }

-- Whether a status code says that nothing was started.
unfoldable pub is_rejection : ℕ → Bool
is_rejection status = leb 400 status && (ltb status 500 && not (status == 408))

module _ (o : Outside) where
  node_is : Text → Option (Option Text) → Bool
  node_is node none = false
  node_is node (some none) = false
  node_is node (some (some n)) = text_eq n node

  -- `_valid_upid`
  unfoldable pub valid_upid : Text → Field → Option Text
  unfolding node_is
  valid_upid node (text s) =
      if ltb 1024 (length s) then none else if node_is node (o.decode_upid s) then some s else none
  valid_upid node _ = none

  abbrev pub watch_result : Text → Watch → Waited RestoreResult
  watch_result upid (watched begun attempt) =
      answered (observe_task o.is_space upid begun observation_timeout max_attempts attempt).0
  watch_result upid interrupted = cancelled

  abbrev pub observed_of : Option Text → Watch → Waited RestoreResult
  observed_of none w =
      answered (result_of RestoreOutcome.uncertain (codes "PVE returned an invalid task ID"))
  observed_of (some upid) w = watch_result upid w

  -- `async_observe_task`
  unfoldable pub async_observe_task : Text → Field → Watch → Waited RestoreResult
  unfolding valid_upid observe_task
  async_observe_task node raw_upid w = observed_of (valid_upid node raw_upid) w

  -- What Rollback and Delete make of the reply.
  unfoldable pub after_reply : Text → Reply → Watch → Waited RestoreResult
  unfolding is_rejection async_observe_task bounded_reason
  after_reply node (accepted raw_upid) w = async_observe_task node raw_upid w
  after_reply node (resource_error status e) w =
      if is_rejection status
      then answered (result_of RestoreOutcome.not_started (bounded_reason o.is_space e))
      else answered (result_of RestoreOutcome.uncertain (bounded_reason o.is_space e))
  after_reply node (other_error e) w =
      answered (result_of RestoreOutcome.uncertain (bounded_reason o.is_space e))
  after_reply node interrupted w = cancelled

  -- `async_rollback_snapshot`, with the reply to its submission
  unfoldable pub rollback_snapshot : Text → Text → Reply → Watch → Waited RestoreResult
  unfolding is_eligible after_reply
  rollback_snapshot node name reply w =
      if not (is_eligible name)
      then answered (result_of RestoreOutcome.not_started (codes "invalid snapshot name"))
      else after_reply node reply w

  -- `async_delete_snapshot`, with the reply to its submission
  unfoldable pub native_delete : Text → Text → Reply → Watch → Waited RestoreResult
  unfolding is_eligible after_reply
  native_delete node name reply w =
      if not (is_eligible name)
      then answered (result_of RestoreOutcome.not_started (codes "invalid snapshot name"))
      else after_reply node reply w
