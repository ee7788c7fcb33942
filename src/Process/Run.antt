-- ===== src/Process/Run.antt =====
-- `_async_run_update` and `_async_run_autoremove`, and what they wait for
-- (custom_components/hubinet_ops/packages/manager.py).
use hubinet_ops_next.Prelude.{
  ℕ, suc, ◌+◌, Bool, true, false, Option, none, some, List, [], ◌∷◌, Text, codes, text_eq,
  if◌then◌else◌, not, ◌&&◌, ◌==◌, String,
}
use hubinet_ops_next.Prelude.Results.{Result, ok, err}
use hubinet_ops_next.Models.{UpdateOutcome, PackageId}
use hubinet_ops_next.Manager.Update.{update_error}
use hubinet_ops_next.Snapshots.{Unicode, RetainedSummary, field_is, retained_summary, valid_name}
use hubinet_ops_next.Process.{
  planned, mutated, status_read, pinged, slept, retained_notified, World, Mutation, Failure,
  update_failed, snapshot_failed, unexpected, Proc, ◌>>=◌, ◌>>◌, pure, fail, happen, note, ask,
  transport, transported, lift, require,
}
use hubinet_ops_next.Process.Snapshot.{list_snapshots, create_snapshot, delete_snapshot}

-- `_TASK_MAX_POLLS`
abbrev pub max_polls : ℕ
max_polls = 120

abbrev pub id_eq : PackageId → PackageId → Bool
id_eq a b = text_eq a.name b.name && text_eq a.architecture b.architecture

unfoldable pub version_of : PackageId → List (PackageId × Text) → Option Text
version_of i [] = none
version_of i ((j, v) ∷ d) = if id_eq j i then some v else version_of i d

abbrev version_eq : Option Text → Option Text → Bool
version_eq none none = true
version_eq (some a) (some b) = text_eq a b
version_eq _ _ = false

abbrev count_if : Bool → ℕ → ℕ
count_if true n = suc n
count_if false n = n

-- The rows of an inventory that are not in the other with the same version.
unfoldable pub changed_rows : List (PackageId × Text) → List (PackageId × Text) → ℕ
unfolding version_of
changed_rows [] other = 0
changed_rows ((i, v) ∷ d) other =
    count_if (not (version_eq (some v) (version_of i other))) (changed_rows d other)

abbrev is_missing : Option Text → Bool
is_missing none = true
is_missing (some v) = false

unfoldable pub added_rows : List (PackageId × Text) → List (PackageId × Text) → ℕ
unfolding version_of
added_rows [] other = 0
added_rows ((i, v) ∷ d) other = count_if (is_missing (version_of i other)) (added_rows d other)

-- `changed_package_count`: over the identities before, and those that are only after.
unfoldable pub changed_package_count : Mutation → ℕ
unfolding changed_rows added_rows
changed_package_count m = changed_rows m.before m.after + added_rows m.after m.before

-- Writes of the local variables.
abbrev pub set_started : Proc (Unit {0})
set_started p = (ok tt, record p { snapshot_started = true })

abbrev pub set_name : Text → Proc (Unit {0})
set_name s p = (ok tt, record p { snapshot_name = some s })

abbrev pub set_ready : Proc (Unit {0})
set_ready p = (ok tt, record p { snapshot_ready = true })

abbrev pub set_mutating : Proc (Unit {0})
set_mutating p = (ok tt, record p { mutation_started = true })

abbrev pub set_changed : ℕ → Proc (Unit {0})
set_changed n p = (ok tt, record p { changed_count = some n })

-- `if retained.total_count: self._notify_retained_snapshots(...)`
abbrev pub notify_retained : RetainedSummary → Proc (Unit {0})
notify_retained r = if r.total_count == 0 then pure tt else note (retained_notified r)

-- One round of the liveness probe: an answer, or a refusal that passes as no answer.
abbrev pub answered : Result Failure Bool → Result Failure Bool
answered (ok b) = ok b
answered (err (update_failed e)) = ok false
answered (err f) = err f

abbrev pub not_live : Failure
not_live = update_failed (
    update_error UpdateOutcome.liveness_failed
      "LXC did not answer the package-update liveness probe")

abbrev pub second_ping : Bool → Proc (Unit {0})
second_ping true = pure tt
second_ping false = fail not_live

-- Whether the deletion of the snapshot left it; a snapshot error is no failure of the run.
abbrev pub left_by : Result Failure (Unit {0}) → Result Failure Bool
left_by (ok x) = ok false
left_by (err (snapshot_failed e)) = ok true
left_by (err f) = err f

module _ {P : Type 0} (u : Unicode) (w : World P) where
  unfoldable pub ping_once : Proc Bool
  ping_once p = (answered (transported (w.ping p.events)), happen pinged p)

  abbrev pub first_ping : Bool → Proc (Unit {0})
  first_ping true = pure tt
  first_ping false = do ask slept w.sleep unexpected; again ← ping_once; second_ping again

  -- `_async_require_liveness`
  unfoldable pub require_liveness : Proc (Unit {0})
  unfolding ping_once
  require_liveness = do
    status ← ask status_read w.status (
        update_failed (
          update_error UpdateOutcome.guest_unavailable
            "could not confirm native PVE LXC running state"))
    require (field_is (codes "running") status) (
        update_failed (
          update_error UpdateOutcome.guest_unavailable "native PVE reports the LXC is not running"))
    live ← ping_once
    first_ping live

  -- The safety snapshot: older ones are reported, then a new one is created and confirmed.
  unfoldable pub take_snapshot : Proc Text
  take_snapshot = do
    l ← list_snapshots u w false
    r ← lift (retained_summary 5 l)
    notify_retained r
    name ← (λ p. (ok (w.new_name p.events), p))
    require (valid_name name) unexpected
    set_name name
    create_snapshot u w max_polls name
    set_ready
    pure name

  -- The mutation, its count, and the liveness of the guest.
  unfoldable pub mutate : Proc (Unit {0})
  mutate = do
    set_mutating
    m ← transport mutated w.mutate
    set_changed (changed_package_count m)
    require_liveness

  -- The fresh plan has to be the one that was shown; `same` compares them.
  unfoldable pub check_plan : (List P → Bool) → String → Proc (Unit {0})
  check_plan same message = do
    fresh ← transport planned w.plan
    require (same fresh) (update_failed (update_error UpdateOutcome.plan_changed message))

  unfoldable pub delete_or_keep : Text → Proc Bool
  delete_or_keep name p =
      (left_by (delete_snapshot u w max_polls name p).0, (delete_snapshot u w max_polls name p).1)

  -- The body of the `try` under the update slot, with a snapshot. The result is whether the
  -- snapshot was left behind.
  unfoldable pub guarded_run : (List P → Bool) → String → Proc Bool
  guarded_run same message = do
    check_plan same message
    set_started
    name ← take_snapshot
    mutate
    delete_or_keep name

  -- The body without one.
  unfoldable pub bare_run : (List P → Bool) → String → Proc Bool
  bare_run same message = do check_plan same message; mutate; pure false
