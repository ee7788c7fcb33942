-- ===== src/Native/Proven.antt =====
-- When Restore and Delete are said to have succeeded
-- (custom_components/hubinet_ops/snapshot_restore.py).
use hubinet_ops_next.Prelude.{
  ◌≡◌, refl, subst, inl, inr, ◌⊎◌, ℕ, ◌+◌, ◌<◌, Bool, true, false, not, ◌&&◌, Option, none, some,
  List, arith, Text, if_cases, any,
}
use hubinet_ops_next.Prelude.Results.{Result, ok, err}
use hubinet_ops_next.Dict.{Key}
use hubinet_ops_next.Snapshots.{Field}
use hubinet_ops_next.Manager.State.{Manager}
use hubinet_ops_next.Native.{
  is_eligible, Row, rows, Waited, answered, raised, cancelled, validate_snapshot,
}
use hubinet_ops_next.Native.Listing.{shows}
use hubinet_ops_next.Native.Task.{RestoreOutcome, RestoreResult, Look, observe_task}
use hubinet_ops_next.Native.Submit.{
  Outside, Reply, accepted, resource_error, other_error, Watch, watched, max_attempts,
  observation_timeout, is_rejection, valid_upid, observed_of, async_observe_task, after_reply,
  rollback_snapshot, native_delete,
}
use hubinet_ops_next.Native.Restore.{SnapshotKind, Ended, Calls, after_submission, run_restore}
use hubinet_ops_next.Native.Honest.{HasSucceeded, IsSuccess, observe-success}
use hubinet_ops_next.Native.Sequence.{valid_listing, run_restore-IsOrdered}
use hubinet_ops_next.Native.Delete.{
  Deleted, DeleteCalls, after_delete, after_listing, run_delete, package_snapshot_conflict,
}

-- The submission was accepted with a task of this node, and one of at most three attempts saw the
-- task stopped with success.
pub record IsProven (o : Outside) (node : Text) (reply : Reply) (watch : Watch) : Type 0 where
  pub raw_upid : Field
  pub was_accepted : reply ≡ accepted raw_upid
  pub upid : Text
  pub valid : valid_upid o node raw_upid ≡ some upid
  pub begun : ℕ
  pub attempt : ℕ → Look
  pub watching : watch ≡ watched begun attempt
  pub number : ℕ
  pub few : number < max_attempts
  pub seen : HasSucceeded (attempt number).status

abbrev Succeeds : Waited RestoreResult → Type 0
Succeeds (answered r) = IsSuccess r
Succeeds _ = ⊥

module _ (o : Outside) (node : Text) where
  observed-IsProven :
      (raw : Field) (u : Option Text) (w : Watch)
      → valid_upid o node raw ≡ u
      → Succeeds (observed_of o u w)
      → IsProven o node (accepted raw) w
  unfolding observe_task
  observed-IsProven raw none w q h = cc
  observed-IsProven raw (some upid) (watched begun attempt) q h =
      let (j, low, high, seen) =
        observe-success o.is_space upid (begun + observation_timeout) attempt none max_attempts 0
          h in
      record {
        raw_upid = raw;
        was_accepted = refl;
        upid = upid;
        valid = q;
        begun = begun;
        attempt = attempt;
        watching = refl;
        number = j;
        few = omega arith;
        seen = seen;
      }
  observed-IsProven raw (some upid) Watch.interrupted q h = elim h [ ]

  after_reply-IsProven :
      (reply : Reply) (w : Watch) → Succeeds (after_reply o node reply w) → IsProven o node reply w
  unfolding after_reply async_observe_task
  after_reply-IsProven (accepted raw) w = observed-IsProven raw (valid_upid o node raw) w refl
  after_reply-IsProven (resource_error status e) w =
      if_cases (λ r. Succeeds r → IsProven o node (resource_error status e) w) (is_rejection status)
        _ _ (λ f h. cc) λ f h. cc
  after_reply-IsProven (other_error e) w = λ h. cc
  after_reply-IsProven Reply.interrupted w = λ h. elim h [ ]

  rollback-IsProven :
      (name : Text) (reply : Reply) (w : Watch)
      → Succeeds (rollback_snapshot o node name reply w)
      → IsProven o node reply w
  unfolding rollback_snapshot
  rollback-IsProven name reply w =
      if_cases (λ r. Succeeds r → IsProven o node reply w) (not (is_eligible name)) _ _ (λ f h. cc)
        λ f. after_reply-IsProven reply w

  delete-IsProven :
      (name : Text) (reply : Reply) (w : Watch)
      → Succeeds (native_delete o node name reply w)
      → IsProven o node reply w
  unfolding native_delete
  delete-IsProven name reply w =
      if_cases (λ r. Succeeds r → IsProven o node reply w) (not (is_eligible name)) _ _ (λ f h. cc)
        λ f. after_reply-IsProven reply w

module _ (o : Outside) (kind : SnapshotKind) (k : Key) (name : Text) where
  after_submission-Succeeds :
      (reserved : Bool) (w : Waited RestoreResult) (m : Manager)
      → IsSuccess (after_submission o kind k name reserved w m).result
      → Succeeds w
  after_submission-Succeeds reserved (answered r) m h = h
  after_submission-Succeeds reserved (raised e) m h = cc
  after_submission-Succeeds reserved cancelled m h = cc

  -- Restore is said to have succeeded only where its submission was accepted with a task of the
  -- guest's node and one of at most three looks at this task saw it stopped with success.
  pub run_restore-IsProven :
      (reserved : Bool) (c : Calls) (m : Manager)
      → (run_restore o kind k name reserved c m).result.outcome ≡ RestoreOutcome.success
      → IsProven o k.node c.reply c.watch
  run_restore-IsProven reserved c m h = elim (run_restore-IsOrdered o kind k name reserved c m) [
    | inl (nothing, outcome) ↦ cc
    | inr (n, guarded, q) ↦ rollback-IsProven o k.node name c.reply c.watch (
        after_submission-Succeeds reserved _ (c.meanwhile n)
          (subst (λ (e : Ended). IsSuccess e.result) q h))
  ]

  after_delete-Succeeds :
      (w : Waited RestoreResult) → IsSuccess (after_delete w).result → Succeeds w
  after_delete-Succeeds (answered r) h = h
  after_delete-Succeeds (raised e) h = cc
  after_delete-Succeeds cancelled h = cc

  -- What held when a Delete was submitted.
  pub record MayDelete (c : DeleteCalls) : Type 0 where
    pub shown_rows : List Row
    pub listed : c.listing ≡ answered (rows shown_rows)
    pub shown : (is_eligible name && any (shows name) shown_rows) ≡ true
    pub no_create : c.create_running ≡ false
    pub no_conflict : package_snapshot_conflict kind k name c.manager ≡ false

  -- Nothing was submitted and nothing succeeded, or all that Delete asks for held.
  abbrev IsChecked : DeleteCalls → Deleted → Type 0
  IsChecked c d =
      ((d.submitted ≡ false) × (d.result.outcome ≡ RestoreOutcome.not_started))
      ⊎ (MayDelete c × (d ≡ after_delete (native_delete o k.node name c.reply c.watch)))

  after_listing-IsChecked :
      (c : DeleteCalls) (v : Waited (Result Text Bool))
      → validate_snapshot name c.listing ≡ v
      → IsChecked c (after_listing o kind k name c v)
  unfolding after_listing
  after_listing-IsChecked c (answered (err e)) h = inl (refl, refl)
  after_listing-IsChecked c (answered (ok false)) h = inl (refl, refl)
  after_listing-IsChecked c (answered (ok true)) h =
      let (rs, listed, shown) = valid_listing name c.listing h in
      if_cases (IsChecked c) c.create_running _ _ (λ e. inl (refl, refl))
        λ e.
          if_cases (IsChecked c) (package_snapshot_conflict kind k name c.manager) _ _
            (λ f. inl (refl, refl))
            λ f. inr (
              record {
                shown_rows = rs;
                listed = listed;
                shown = shown;
                no_create = e;
                no_conflict = f;
              },
              refl,
            )
  after_listing-IsChecked c (raised e) h = inl (refl, refl)
  after_listing-IsChecked c cancelled h = inl (refl, refl)

  run_delete-IsChecked : (c : DeleteCalls) → IsChecked c (run_delete o kind k name c)
  unfolding run_delete
  run_delete-IsChecked c = after_listing-IsChecked c (validate_snapshot name c.listing) refl

  -- Delete submits only a name that is eligible and that a fresh listing showed, with no Create at
  -- work and no Update or Autoremove running that the snapshot belongs to; and it is said to have
  -- succeeded only where, besides, a look at the accepted task saw it stopped with success.
  pub run_delete-MayDelete :
      (c : DeleteCalls)
      → ((run_delete o kind k name c).submitted ≡ true → MayDelete c)
        × ((run_delete o kind k name c).result.outcome ≡ RestoreOutcome.success
            → MayDelete c × IsProven o k.node c.reply c.watch)
  run_delete-MayDelete c = elim (run_delete-IsChecked c) [
    | inl (nothing, outcome) ↦ (λ h. cc, λ h. cc)
    | inr (may, q) ↦ (
      λ h. may,
      λ h. (
        may,
        delete-IsProven o k.node name c.reply c.watch
            (after_delete-Succeeds _ (subst (λ (d : Deleted). IsSuccess d.result) q h)),
      ),
    )
  ]
