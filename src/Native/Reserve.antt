-- ===== src/Native/Reserve.antt =====
-- The reservation of `PackageManager` over a run of Restore
-- (custom_components/hubinet_ops/snapshot_restore.py).
use hubinet_ops_next.Prelude.{◌≡◌, inl, inr, Bool, true, false, arith, Text, Bool-cases}
use hubinet_ops_next.Prelude.Results.{Result, ok, err}
use hubinet_ops_next.Dict.{Key, member}
use hubinet_ops_next.Dict.Laws.{member-discard, key_eq_refl}
use hubinet_ops_next.Manager.State.{Manager, invalidate_health}
use hubinet_ops_next.Manager.Restore.{invalidate_restore_target, end_restore, drop_evidence}
use hubinet_ops_next.Native.{Waited, answered, raised, cancelled, validate_snapshot}
use hubinet_ops_next.Native.Task.{RestoreOutcome, RestoreResult}
use hubinet_ops_next.Native.Submit.{Outside}
use hubinet_ops_next.Native.Restore.{
  SnapshotKind, is_lxc, Ended, release, Calls, after_submission, submit, submit_lxc,
  after_validation, run_restore,
}

abbrev pub is_uncertain : RestoreOutcome → Bool
is_uncertain RestoreOutcome.uncertain = true
is_uncertain _ = false

abbrev pub is_reserved : Key → Manager → Bool
is_reserved k m = member k m.restore_reserved

end_restore-is_reserved : (k : Key) (m : Manager) → is_reserved k (end_restore k m) ≡ false
unfolding end_restore
end_restore-is_reserved k m = ground (arith, member-discard k k m.restore_reserved, key_eq_refl k)

release-is_reserved :
    (k : Key) (o : RestoreOutcome) (m : Manager)
    → is_reserved k m ≡ true
    → is_reserved k (release true k o m) ≡ is_uncertain o
unfolding release
release-is_reserved k RestoreOutcome.uncertain m h = h
release-is_reserved k RestoreOutcome.not_started m h = end_restore-is_reserved k m
release-is_reserved k RestoreOutcome.success m h = end_restore-is_reserved k m
release-is_reserved k RestoreOutcome.failed m h = end_restore-is_reserved k m

invalidate-is_reserved :
    (k : Key) (m : Manager)
    → is_reserved k m ≡ true
    → is_reserved k (invalidate_restore_target k m).1 ≡ true
unfolding invalidate_restore_target drop_evidence invalidate_health
invalidate-is_reserved k m h = ground (arith, h)

-- The reservation stands exactly where the outcome is uncertain.
abbrev pub IsKept : Key → Ended → Type 0
IsKept k e = is_reserved k e.manager ≡ is_uncertain e.result.outcome

module _ (o : Outside) (kind : SnapshotKind) (k : Key) (name : Text) where
  after_submission-IsKept :
      (w : Waited RestoreResult) (m : Manager)
      → is_reserved k m ≡ true
      → IsKept k (after_submission o kind k name true w m)
  after_submission-IsKept (answered r) m h = release-is_reserved k r.outcome m h
  after_submission-IsKept (raised e) m h = release-is_reserved k RestoreOutcome.uncertain m h
  after_submission-IsKept cancelled m h = release-is_reserved k RestoreOutcome.uncertain m h

  module _ (c : Calls)
      (keeps : (n : Manager) → is_reserved k n ≡ true → is_reserved k (c.meanwhile n) ≡ true) where
    submit-IsKept :
        (m : Manager) → is_reserved k m ≡ true → IsKept k (submit o kind k name true c m)
    submit-IsKept m h = after_submission-IsKept _ (c.meanwhile m) (keeps m h)

    submit_lxc-IsKept :
        (p : Result Text (Unit {0}) × Manager)
        → is_reserved k p.1 ≡ true
        → IsKept k (submit_lxc o kind k name true c p)
    submit_lxc-IsKept (ok x, m) h = submit-IsKept m h
    submit_lxc-IsKept (err e, m) h = release-is_reserved k RestoreOutcome.not_started m h

    after_validation-IsKept :
        (v : Waited (Result Text Bool)) (m : Manager)
        → is_reserved k m ≡ true
        → IsKept k (after_validation o kind k name true c v m)
    unfolding after_validation
    after_validation-IsKept (answered (err e)) m h =
        release-is_reserved k RestoreOutcome.not_started m h
    after_validation-IsKept (answered (ok false)) m h =
        release-is_reserved k RestoreOutcome.not_started m h
    after_validation-IsKept (answered (ok true)) m h = elim (Bool-cases c.create_running) [
      | inl e ↦ rw e (release-is_reserved k RestoreOutcome.not_started m h)
      | inr e ↦ elim (Bool-cases (is_lxc kind)) [
        | inl f ↦
            rw (e, f)
              (submit_lxc-IsKept (invalidate_restore_target k m) (invalidate-is_reserved k m h))
        | inr f ↦ rw (e, f) (submit-IsKept m h)
      ]
    ]
    after_validation-IsKept (raised e) m h = release-is_reserved k RestoreOutcome.not_started m h
    after_validation-IsKept cancelled m h = release-is_reserved k RestoreOutcome.not_started m h

    -- A run of Restore that holds the reservation of its guest, and whose reservation nothing else
    -- ends while it waits, gives it up when it ends, unless the outcome is uncertain: then it stays
    -- reserved.
    pub run_restore-IsKept :
        (m : Manager) → is_reserved k m ≡ true → IsKept k (run_restore o kind k name true c m)
    unfolding run_restore
    run_restore-IsKept m h = after_validation-IsKept (validate_snapshot name c.listing) m h
