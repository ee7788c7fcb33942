-- ===== src/EasyUpdate/Examples.antt =====
-- Easy Update of one guest (custom_components/hubinet_ops/easy_update.py).
use hubinet_ops_next.Prelude.{
  ◌≡◌, ◌↔◌, ◌⊎◌, refl, true, false, some, [], ◌∷◌, Text, codes, text_eq, is_none, all,
}
use hubinet_ops_next.Prelude.Results.{ok, err}
use hubinet_ops_next.Dict.{get, put, pop, key_eq, member, discard, any_at, any_vmid}
use hubinet_ops_next.Models.{ScanResult, UpdateRecord, UpdateError, UpdateStatus, no_update}
use hubinet_ops_next.Manager.State.{
  Manager, scan_record, update_record, cleanup_record, health_record, set_record, set_update_record,
  invalidate_cleanup, restore_owns, scan_busy, update_busy, cleanup_busy, health_busy, package_busy,
  invalidate_health, cancel,
}
use hubinet_ops_next.Manager.Scan.{
  start_scan, accept_scan, complete_scan, scan_outcome, finish_scan, publish_cleanup,
  confirm_review, confirm_record, has_plan,
}
use hubinet_ops_next.Manager.Update.{
  start_update, package_plan, reviewed_plan, running_update, retire_evidence, accept_update,
  start_autoremove,
}
use hubinet_ops_next.Manager.Cases.{guest, m0, m2, removable}
use hubinet_ops_next.EasyUpdate.{
  Target, Call, refused, start_easy_update, is_expected, is_active, current_scan,
}
use hubinet_ops_next.EasyUpdate.Accept.{MayConfirm}
use hubinet_ops_next.EasyUpdate.Run.{start_easy_update_iff, start_easy_update_refused, MayStart}
use hubinet_ops_next.EasyUpdate.Follow.{
  Wake, time_ended, asked, follow, decide, is_busy, MayFollow, IsAmong, follow-MayFollow,
  follow_time_ended,
}

abbrev call : Call
call = record {
  isoformat = λ at. at ∷ [];
  expected_scan_attempt = some (5 ∷ []);
  skip_snapshot = false;
}

abbrev target : Target
target = record {
  last_update_success = true;
  is_running = true;
  snapshot_permission = true;
  create_running = false;
}

accepted : (start_easy_update guest call target 7 m2).0 ≡ ok (running_update 7 false)
unfolding start_easy_update get complete_scan finish_scan scan_outcome start_scan restore_owns
    any_vmid scan_busy any_at update_busy cleanup_busy health_busy accept_scan set_record put
    invalidate_cleanup key_eq discard member pop current_scan is_active is_expected confirm_record
    confirm_review has_plan publish_cleanup cancel cleanup_record health_record invalidate_health
    package_busy scan_record set_update_record update_record accept_update package_plan
    retire_evidence reviewed_plan start_update codes text_eq
accepted = refl

start_easy_update_iff_example :
    ((r : UpdateRecord) × ((start_easy_update guest call target 7 m2).0 ≡ ok r)) ↔ (
      (t : Text) × (x : ScanResult) × MayConfirm guest call target m2 t x
      × MayStart guest call target 7 m2 t)
start_easy_update_iff_example = start_easy_update_iff guest call target 7 m2

-- The caller saw an earlier scan.
abbrev late : Call
late = record {
  isoformat = λ at. at ∷ [];
  expected_scan_attempt = some (4 ∷ []);
  skip_snapshot = false;
}

refused-late :
    (start_easy_update guest late target 7 m2).0 ≡ err (refused "easy_update_scan_changed")
unfolding start_easy_update get complete_scan finish_scan scan_outcome start_scan restore_owns
    any_vmid scan_busy any_at update_busy cleanup_busy health_busy accept_scan set_record put
    invalidate_cleanup key_eq discard member pop current_scan is_active is_expected confirm_record
    confirm_review has_plan publish_cleanup cancel cleanup_record health_record invalidate_health
    package_busy scan_record set_update_record update_record accept_update package_plan
    retire_evidence reviewed_plan start_update codes text_eq
refused-late = refl

start_easy_update_refused_example :
    ((start_easy_update guest late target 7 m2).1 ≡ m2)
    ⊎ ((t : Text) × (x : ScanResult) × (f : UpdateError) × MayConfirm guest late target m2 t x
        × ((start_update guest true true false 7 (confirm_review guest t m2).1).0 ≡ err f)
        × ((start_easy_update guest late target 7 m2).1 ≡ (confirm_review guest t m2).1))
start_easy_update_refused_example =
    start_easy_update_refused guest late target 7 m2 (refused "easy_update_scan_changed")
      refused-late

-- The update is at work at the first wake, and has left cleanup evidence at the second one.
abbrev update_at : UpdateStatus → Manager
update_at status = record m0 {
  update_records =
      (
        guest,
        record { object = 0; value = record no_update { status = status; last_attempt = some 7 } },
      )
      ∷ [];
  cleanup_evidence = (guest, record { candidates = removable ∷ []; observed_at = 8 }) ∷ [];
}

abbrev working : Wake
working = record { target = target; manager = update_at UpdateStatus.running; now = 8 }

abbrev done : Wake
done = record { target = target; manager = update_at UpdateStatus.success; now = 9 }

asked_done :
    follow 7 guest (working ∷ done ∷ [])
    ≡ asked done (start_autoremove guest true true 9 (update_at UpdateStatus.success))
unfolding follow decide get key_eq text_eq update_record member is_busy health_record scan_record
    cleanup_record
asked_done = refl

follow-MayFollow_example :
    IsAmong done (working ∷ done ∷ [])
    × MayFollow 7 guest target (update_at UpdateStatus.success)
    × (start_autoremove guest true true 9 (update_at UpdateStatus.success)
        ≡ start_autoremove guest true true 9 (update_at UpdateStatus.success))
follow-MayFollow_example = follow-MayFollow 7 guest (working ∷ done ∷ []) done _ asked_done

follow_time_ended_example :
    (follow 7 guest (working ∷ []) ≡ time_ended)
    ↔ (all (λ (w : Wake). is_none (decide 7 guest w.target w.manager)) (working ∷ []) ≡ true)
follow_time_ended_example = follow_time_ended 7 guest (working ∷ [])
