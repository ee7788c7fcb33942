-- ===== src/Native/Examples.antt =====
-- Restore and Delete of one snapshot (custom_components/hubinet_ops/snapshot_restore.py).
use hubinet_ops_next.Prelude.{
  ℕ, ◌≡◌, ◌⊎◌, refl, true, false, some, [], ◌∷◌, Text, codes, text_eq, ◌==◌,
}
use hubinet_ops_next.Dict.{key_eq, member, add, any_at, any_vmid}
use hubinet_ops_next.Snapshots.{text, missing, valid_name, is_letter, is_name_char}
use hubinet_ops_next.Manager.State.{Manager, restore_owns, scan_busy, update_busy, cleanup_busy}
use hubinet_ops_next.Manager.Restore.{begin_restore}
use hubinet_ops_next.Manager.Cases.{guest, m0}
use hubinet_ops_next.Native.{is_eligible, row, rows, answered, pos}
use hubinet_ops_next.Native.Names.{is_eligible-valid_name}
use hubinet_ops_next.Native.Task.{RestoreOutcome, Look, task}
use hubinet_ops_next.Native.Submit.{Outside, accepted, watched, rollback_snapshot}
use hubinet_ops_next.Native.Restore.{SnapshotKind, Calls, after_submission, run_restore}
use hubinet_ops_next.Native.Reserve.{is_reserved, is_uncertain, run_restore-IsKept}
use hubinet_ops_next.Native.Sequence.{IsGuarded, run_restore-IsOrdered}
use hubinet_ops_next.Native.Delete.{DeleteCalls, run_delete}
use hubinet_ops_next.Native.Proven.{IsProven, MayDelete, run_restore-IsProven, run_delete-MayDelete}

abbrev kept : Text
kept = codes "hubinet-preupd-1"

is_eligible-valid_name_example : is_eligible kept ≡ valid_name kept
is_eligible-valid_name_example = is_eligible-valid_name kept

abbrev outside : Outside
outside = record { is_space = λ c. c == 32; decode_upid = λ s. some (some guest.node) }

-- The task is stopped with success at the first look.
abbrev stopped : ℕ → Look
stopped i = record {
  now = i;
  status = task (text (codes "stopped")) (text (codes "OK")) (codes "OK");
  later = i;
}

abbrev calls : Calls
calls = record {
  listing = answered (rows (row (text kept) missing (some (pos 3)) ∷ []));
  create_running = false;
  reply = accepted (text (codes "UPID:ve"));
  watch = watched 0 stopped;
  meanwhile = λ m. m;
}

abbrev reserved : Manager
reserved = (begin_restore guest m0).1

has_reservation : is_reserved guest reserved ≡ true
unfolding begin_restore member add key_eq text_eq any_vmid restore_owns scan_busy update_busy
    cleanup_busy any_at
has_reservation = refl

run_restore-IsKept_example :
    is_reserved guest (run_restore outside SnapshotKind.lxc guest kept true calls reserved).manager
    ≡ is_uncertain
        (run_restore outside SnapshotKind.lxc guest kept true calls reserved).result.outcome
run_restore-IsKept_example =
    run_restore-IsKept outside SnapshotKind.lxc guest kept calls (λ n h. h) reserved has_reservation

run_restore-IsOrdered_example :
    (((run_restore outside SnapshotKind.lxc guest kept true calls reserved).submitted ≡ false)
      × ((run_restore outside SnapshotKind.lxc guest kept true calls reserved).result.outcome
          ≡ RestoreOutcome.not_started))
    ⊎ ((n : Manager) × IsGuarded SnapshotKind.lxc guest kept calls reserved n
        × (run_restore outside SnapshotKind.lxc guest kept true calls reserved
            ≡ after_submission outside SnapshotKind.lxc guest kept true
                (rollback_snapshot outside guest.node kept calls.reply calls.watch)
                n))
run_restore-IsOrdered_example =
    run_restore-IsOrdered outside SnapshotKind.lxc guest kept true calls reserved

restored :
    (run_restore outside SnapshotKind.lxc guest kept true calls reserved).result.outcome
    ≡ RestoreOutcome.success
unfolding run_restore begin_restore member add key_eq text_eq any_vmid restore_owns scan_busy
    update_busy cleanup_busy any_at codes is_letter is_name_char
restored = refl

run_restore-IsProven_example : IsProven outside guest.node calls.reply calls.watch
run_restore-IsProven_example =
    run_restore-IsProven outside SnapshotKind.lxc guest kept true calls reserved restored

abbrev deletion : DeleteCalls
deletion = record {
  listing = calls.listing;
  create_running = false;
  manager = m0;
  reply = calls.reply;
  watch = calls.watch;
}

run_delete-MayDelete_example :
    ((run_delete outside SnapshotKind.lxc guest kept deletion).submitted ≡ true
      → MayDelete outside SnapshotKind.lxc guest kept deletion)
    × ((run_delete outside SnapshotKind.lxc guest kept deletion).result.outcome
          ≡ RestoreOutcome.success
        → MayDelete outside SnapshotKind.lxc guest kept deletion
          × IsProven outside guest.node deletion.reply deletion.watch)
run_delete-MayDelete_example = run_delete-MayDelete outside SnapshotKind.lxc guest kept deletion
