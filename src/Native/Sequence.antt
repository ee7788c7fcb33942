-- ===== src/Native/Sequence.antt =====
-- What stands before the submission of a Restore (custom_components/hubinet_ops/snapshot_restore.py).
use hubinet_ops_next.Prelude.{
  ◌≡◌, ◌≢◌, ◌⊎◌, refl, sym, ◌∙◌, inl, inr, Bool, true, false, ◌&&◌, none, List, arith, Text,
  Bool-cases, if_cases, any,
}
use hubinet_ops_next.Prelude.Results.{Result, ok, err}
use hubinet_ops_next.Dict.{Key, member, get}
use hubinet_ops_next.Dict.Laws.{get-pop, member-add, key_eq_refl}
use hubinet_ops_next.Manager.State.{Manager, invalidate_health}
use hubinet_ops_next.Manager.Restore.{invalidate_restore_target, drop_evidence}
use hubinet_ops_next.Native.{
  is_eligible, Row, Rows, rows, no_sequence, Waited, answered, raised, cancelled,
  eligible_snapshots, list_native, validate_snapshot,
}
use hubinet_ops_next.Native.Listing.{shows, validate_snapshot-shows}
use hubinet_ops_next.Native.Task.{RestoreOutcome}
use hubinet_ops_next.Native.Submit.{Outside, rollback_snapshot}
use hubinet_ops_next.Native.Restore.{
  SnapshotKind, is_lxc, Ended, Calls, after_submission, submit_lxc, after_validation, run_restore,
}

-- Nothing that a scan or a cleanup found out about the guest is left, and late evidence is fenced.
pub record IsClean (k : Key) (m : Manager) : Type 0 where
  pub no_scan : get k m.records ≡ none
  pub no_view : get k m.viewed_tokens ≡ none
  pub no_cleanup : get k m.cleanup_evidence ≡ none
  pub fenced : member k m.fenced_evidence ≡ true

invalidate-IsClean :
    (k : Key) (m : Manager) (x : Unit {0})
    → (invalidate_restore_target k m).0 ≡ ok x
    → IsClean k (invalidate_restore_target k m).1
unfolding invalidate_restore_target drop_evidence invalidate_health
invalidate-IsClean k m x = elim (Bool-cases (member k m.restore_reserved)) [
  | inr e ↦ rw e λ h. cc
  | inl e ↦ rw e λ h. record {
    no_scan = ground (arith, get-pop k k m.records, key_eq_refl k);
    no_view = ground (arith, get-pop k k m.viewed_tokens, key_eq_refl k);
    no_cleanup = ground (arith, get-pop k k m.cleanup_evidence, key_eq_refl k);
    fenced = ground (arith, member-add k k m.fenced_evidence, key_eq_refl k);
  }
]

-- A listing of no rows does not validate a name.
abbrev is_listing : Waited Rows → Bool
is_listing (answered (rows rs)) = true
is_listing _ = false

not_listed_at :
    (name : Text) (l : Waited Rows)
    → is_listing l ≡ false
    → validate_snapshot name l ≢ answered (ok true)
unfolding validate_snapshot list_native eligible_snapshots
not_listed_at name (answered (rows rs)) h = λ q. ground arith
not_listed_at name (answered no_sequence) h = elim (Bool-cases (is_eligible name)) [
  | inl e ↦ rw e λ q. cc
  | inr e ↦ rw e λ q. cc
]
not_listed_at name (raised x) h = elim (Bool-cases (is_eligible name)) [
  | inl e ↦ rw e λ q. cc
  | inr e ↦ rw e λ q. cc
]
not_listed_at name cancelled h = elim (Bool-cases (is_eligible name)) [
  | inl e ↦ rw e λ q. cc
  | inr e ↦ rw e λ q. cc
]

not_listed :
    {A : Type 0} (name : Text) (l : Waited Rows)
    → validate_snapshot name l ≡ answered (ok true)
    → is_listing l ≡ false
    → A
not_listed name l h e = elim (not_listed_at name l e h) [ ]

pub valid_listing :
    (name : Text) (l : Waited Rows)
    → validate_snapshot name l ≡ answered (ok true)
    → (rs : List Row) × (l ≡ answered (rows rs))
      × ((is_eligible name && any (shows name) rs) ≡ true)
valid_listing name (answered (rows rs)) h =
    let same : answered (ok (is_eligible name && any (shows name) rs)) ≡ answered (ok true) =
      sym (validate_snapshot-shows name rs) ∙ h in
    (rs, refl, cc)
valid_listing name (answered no_sequence) h = not_listed name (answered no_sequence) h refl
valid_listing name (raised e) h = not_listed name (raised e) h refl
valid_listing name cancelled h = not_listed name cancelled h refl

-- What held when a Restore was submitted, on the manager then.
pub record IsGuarded (kind : SnapshotKind) (k : Key) (name : Text) (c : Calls) (m n : Manager)
    : Type 0 where
  pub shown_rows : List Row
  pub listed : c.listing ≡ answered (rows shown_rows)
  pub shown : (is_eligible name && any (shows name) shown_rows) ≡ true
  pub no_create : c.create_running ≡ false
  pub clean : is_lxc kind ≡ true → IsClean k n
  pub same : is_lxc kind ≡ false → n ≡ m

module _ (o : Outside) (kind : SnapshotKind) (k : Key) (name : Text) (reserved : Bool) (c : Calls)
    (m : Manager) where
  abbrev IsOrdered : Ended → Type 0
  IsOrdered e =
      ((e.submitted ≡ false) × (e.result.outcome ≡ RestoreOutcome.not_started))
      ⊎ ((n : Manager) × IsGuarded kind k name c m n
          × (e
              ≡ after_submission o kind k name reserved
                  (rollback_snapshot o k.node name c.reply c.watch) (c.meanwhile n)))

  submit_lxc-IsOrdered :
      (p : Result Text (Unit {0}) × Manager)
      → ((x : Unit {0}) → p.0 ≡ ok x → IsGuarded kind k name c m p.1)
      → IsOrdered (submit_lxc o kind k name reserved c p)
  submit_lxc-IsOrdered (ok x, n) h = inr (n, h x refl, refl)
  submit_lxc-IsOrdered (err e, n) h = inl (refl, refl)

  after_validation-IsOrdered :
      (v : Waited (Result Text Bool))
      → validate_snapshot name c.listing ≡ v
      → IsOrdered (after_validation o kind k name reserved c v m)
  unfolding after_validation
  after_validation-IsOrdered (answered (err e)) h = inl (refl, refl)
  after_validation-IsOrdered (answered (ok false)) h = inl (refl, refl)
  after_validation-IsOrdered (answered (ok true)) h =
      let (rs, listed, shown) = valid_listing name c.listing h in
      if_cases IsOrdered c.create_running _ _ (λ e. inl (refl, refl))
        λ e.
          if_cases IsOrdered (is_lxc kind) _ _
            (λ f. submit_lxc-IsOrdered (invalidate_restore_target k m) λ x q. record {
              shown_rows = rs;
              listed = listed;
              shown = shown;
              no_create = e;
              clean = λ g. invalidate-IsClean k m x q;
              same = λ g. cc;
            })
            λ f. inr (
              m,
              record {
                shown_rows = rs;
                listed = listed;
                shown = shown;
                no_create = e;
                clean = λ g. cc;
                same = λ g. refl;
              },
              refl,
            )
  after_validation-IsOrdered (raised e) h = inl (refl, refl)
  after_validation-IsOrdered cancelled h = inl (refl, refl)

  -- A run of Restore either has submitted nothing, and its outcome is NOT_STARTED; or a fresh
  -- listing showed the eligible name, no Create was at work, and of an LXC nothing that a scan or a
  -- cleanup found out was left before it submitted, and its end is what the submission came to.
  pub run_restore-IsOrdered : IsOrdered (run_restore o kind k name reserved c m)
  unfolding run_restore
  run_restore-IsOrdered = after_validation-IsOrdered (validate_snapshot name c.listing) refl
