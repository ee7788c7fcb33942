-- ===== src/Manager/Examples.antt =====
-- The theorems on the operations of `PackageManager` at work on one guest
-- (custom_components/hubinet_ops/packages/manager.py).
use hubinet_ops_next.Prelude.{
  ◌≡◌, ◌≢◌, ◌↔◌, refl, true, false, none, some, [], ◌∷◌, Text, arith, text_eq, is_empty,
}
use hubinet_ops_next.Prelude.Results.{ok, returned}
use hubinet_ops_next.Dict.{key_eq, get, put, pop, any_at, any_vmid, member, discard}
use hubinet_ops_next.Models.{
  ScanRecord, CleanupEvidence, UpdateRecord, UpdateStatus, HealthSource, no_update, update_success,
}
use hubinet_ops_next.Manager.State.{
  Ref, Manager, set_update_record, set_cleanup_record, update_record, cleanup_record, health_record,
  health_claim, health_claim_blocked, invalidate_health, cancel, new_ref, is_own,
  invalidate_cleanup, set_record, restore_owns, scan_busy, update_busy, cleanup_busy, health_busy,
  package_busy,
}
use hubinet_ops_next.Manager.Scan.{
  start_scan, accept_scan, running_scan, complete_scan, scan_outcome, finish_scan, publish_cleanup,
  confirm_review, confirm_record, confirm_viewed_review, has_plan,
}
use hubinet_ops_next.Manager.Update.{
  finish_update, start_update, package_plan, reviewed_plan, running_update, retire_evidence,
  accept_update, start_autoremove, accept_autoremove, cleanup_plan,
}
use hubinet_ops_next.Manager.Evidence.{
  stale_review_refused, confirm_review_iff, confirm_review_plan, accept_update_consumes,
}
use hubinet_ops_next.Manager.Accept.{
  MayUpdate, MayScan, start_update_iff, start_autoremove_iff, start_scan_accepts,
}
use hubinet_ops_next.Manager.Health.{Launch, suspended}
use hubinet_ops_next.Manager.Heard.{accept_update_heard, finish_update_heard, Start, begin}
use hubinet_ops_next.Manager.Reentry.{finish_update_heard-begin, accept_update_heard-scan}
use hubinet_ops_next.Manager.Conclude.{seen, conclude_update, conclude_autoremove}
use hubinet_ops_next.Manager.Publish.{
  is_cut_off, conclude_update-publishes, conclude_autoremove-publishes,
}
use hubinet_ops_next.Manager.Cases.{
  guest, token, pending, result, m0, scan_own, m1, m2, m3, attempt, m4, cleaning,
}

own-scan : is_own (get guest m1.records) scan_own ≡ true
unfolding start_update restore_owns any_vmid package_busy scan_busy update_busy cleanup_busy
    health_busy any_at reviewed_plan get put pop member discard has_plan confirm_review
    complete_scan finish_scan publish_cleanup start_scan accept_scan retire_evidence package_plan
    set_record scan_outcome key_eq text_eq invalidate_cleanup
own-scan = refl

new-token : token ≢ 97 ∷ 50 ∷ []
new-token e = ground arith

stale_review_refused_example :
    (confirm_review guest
      (97 ∷ 50 ∷ [])
      (complete_scan guest scan_own 5 token (returned result) (returned []) 6 true m1)).0
    ≡ false
stale_review_refused_example =
    stale_review_refused guest scan_own 5 token (97 ∷ 50 ∷ []) (returned result) (returned []) 6
      true m1 own-scan new-token

start_update_iff_example : ((start_update guest true true false 7 m3).0 ≡ ok attempt) ↔ (
    MayUpdate guest true true false m3
    × (reviewed_plan (get guest m3.records) ≡ some attempt.plan)
    × (attempt.own ≡ new_ref (running_update 7 false) (retire_evidence guest m3)))
start_update_iff_example = start_update_iff guest true true false 7 m3 attempt

start_autoremove_iff_example : ((start_autoremove guest true true 7 m4).0 ≡ ok cleaning) ↔ (
    MayUpdate guest true true false m4
    × ((e : CleanupEvidence) × (get guest m4.cleanup_evidence ≡ some e)
        × (is_empty e.candidates ≡ false)
        × (cleaning.plan ≡ cleanup_plan e.candidates))
    × (cleaning.own ≡ new_ref (running_update 7 false) m4))
start_autoremove_iff_example = start_autoremove_iff guest true true 7 m4 cleaning

start_scan_accepts_example :
    ((start_scan guest true 5 m0).0 ≡ ok (new_ref (running_scan 5) m0)) ↔ MayScan guest true m0
start_scan_accepts_example = start_scan_accepts guest true 5 m0

confirm_review_iff_example : ((confirm_review guest token m2).0 ≡ true) ↔ (
    (r : Ref ScanRecord) × (get guest m2.records ≡ some r)
    × (has_plan r.value ≡ true)
    × (r.value.token ≡ some token))
confirm_review_iff_example = confirm_review_iff guest token m2

abbrev stored : Ref ScanRecord
stored = new_ref (scan_outcome 5 token (returned result)) m1

found-scan : get guest m2.records ≡ some stored
unfolding start_update restore_owns any_vmid package_busy scan_busy update_busy cleanup_busy
    health_busy any_at reviewed_plan get put pop member discard has_plan confirm_review
    complete_scan finish_scan publish_cleanup start_scan accept_scan retire_evidence package_plan
    set_record scan_outcome key_eq text_eq invalidate_cleanup
found-scan = refl

found-result : stored.value.result ≡ some result
unfolding scan_outcome
found-result = refl

confirmed : (confirm_review guest token m2).0 ≡ true
unfolding start_update restore_owns any_vmid package_busy scan_busy update_busy cleanup_busy
    health_busy any_at reviewed_plan get put pop member discard has_plan confirm_review
    complete_scan finish_scan publish_cleanup start_scan accept_scan retire_evidence package_plan
    set_record scan_outcome key_eq text_eq invalidate_cleanup confirm_record
confirmed = refl

confirm_review_plan_example :
    reviewed_plan (get guest (confirm_review guest token m2).1.records)
    ≡ some (package_plan (pending ∷ []))
confirm_review_plan_example =
    confirm_review_plan guest token m2 stored result found-scan found-result confirmed

accept_update_consumes_example :
    (reviewed_plan (get guest (accept_update guest 7 false m3).records) ≡ none)
    × ((confirm_viewed_review guest (accept_update guest 7 false m3)).0 ≡ false)
    × ((token : Text) → (confirm_review guest token (accept_update guest 7 false m3)).0 ≡ false)
    × (get guest (accept_update guest 7 false m3).cleanup_evidence ≡ none)
accept_update_consumes_example = accept_update_consumes guest 7 false m3

-- An update and a run of Autoremove that were accepted, and the record of their success.
abbrev m5 : Manager
m5 = accept_update guest 7 false m3

abbrev m6 : Manager
m6 = accept_autoremove guest 7 m4

abbrev done : UpdateRecord
done = record no_update { status = UpdateStatus.success; last_attempt = some 7 }

owned-update : is_own (get guest m5.update_records) attempt.own ≡ true
unfolding start_update restore_owns any_vmid package_busy scan_busy update_busy cleanup_busy
    health_busy any_at reviewed_plan get put pop member discard has_plan confirm_review
    complete_scan finish_scan publish_cleanup start_scan accept_scan retire_evidence package_plan
    set_record scan_outcome key_eq text_eq invalidate_cleanup confirm_record accept_update
    set_update_record invalidate_health cancel
owned-update = refl

owned-cleanup : is_own (get guest m6.cleanup_records) cleaning.own ≡ true
unfolding get put pop member publish_cleanup key_eq text_eq invalidate_cleanup accept_autoremove
    set_cleanup_record invalidate_health cancel
owned-cleanup = refl

conclude_update-publishes_example :
    ((l : Launch)
      → update_record guest (conclude_update guest attempt.own done (seen []) 9 true l m5) ≡ done)
    × (is_cut_off (seen []) ≡ false
        → update_success done.status ≡ true
        → health_claim_blocked guest.vmid m5 ≡ false
        → health_record guest (conclude_update guest attempt.own done (seen []) 9 true suspended m5)
          ≡ health_claim HealthSource.update)
    × (is_cut_off (seen []) ≡ true
        → (l : Launch)
        → (conclude_update guest attempt.own done (seen []) 9 true l m5).health_records
          ≡ m5.health_records)
conclude_update-publishes_example =
    conclude_update-publishes guest attempt.own done (seen []) 9 true m5 owned-update

conclude_autoremove-publishes_example :
    ((l : Launch)
      → cleanup_record guest (conclude_autoremove guest cleaning.own done (seen []) 9 true l m6)
        ≡ done)
    × (is_cut_off (seen []) ≡ false
        → update_success done.status ≡ true
        → health_claim_blocked guest.vmid m6 ≡ false
        → health_record guest
            (conclude_autoremove guest cleaning.own done (seen []) 9 true suspended m6)
          ≡ health_claim HealthSource.autoremove)
    × (is_cut_off (seen []) ≡ true
        → (l : Launch)
        → (conclude_autoremove guest cleaning.own done (seen []) 9 true l m6).health_records
          ≡ m6.health_records)
conclude_autoremove-publishes_example =
    conclude_autoremove-publishes guest cleaning.own done (seen []) 9 true m6 owned-cleanup

free-update : health_claim_blocked guest.vmid m5 ≡ false
unfolding start_update restore_owns any_vmid package_busy scan_busy update_busy cleanup_busy
    health_busy any_at reviewed_plan get put pop member discard has_plan confirm_review
    complete_scan finish_scan publish_cleanup start_scan accept_scan retire_evidence package_plan
    set_record scan_outcome key_eq text_eq invalidate_cleanup confirm_record accept_update
    set_update_record invalidate_health cancel health_claim_blocked
free-update = refl

finish_update_heard-begin_example :
    finish_update_heard (begin Start.scan guest 9) guest attempt.own done m5
    ≡ (finish_update guest attempt.own done true suspended m5).1
finish_update_heard-begin_example =
    finish_update_heard-begin Start.scan guest guest attempt.own done 9 m5 refl owned-update refl
      free-update

-- The reviewed plan of a scan whose cleanup plan was not seen.
abbrev m7 : Manager
m7 = record m3 { cleanup_evidence = [] }

unrestored : restore_owns guest.vmid m7 ≡ false
unfolding start_update restore_owns any_vmid package_busy scan_busy update_busy cleanup_busy
    health_busy any_at reviewed_plan get put pop member discard has_plan confirm_review
    complete_scan finish_scan publish_cleanup start_scan accept_scan retire_evidence package_plan
    set_record scan_outcome key_eq text_eq invalidate_cleanup confirm_record accept_update
    set_update_record invalidate_health cancel
unrestored = refl

idle : package_busy guest.vmid m7 ≡ false
unfolding start_update restore_owns any_vmid package_busy scan_busy update_busy cleanup_busy
    health_busy any_at reviewed_plan get put pop member discard has_plan confirm_review
    complete_scan finish_scan publish_cleanup start_scan accept_scan retire_evidence package_plan
    set_record scan_outcome key_eq text_eq invalidate_cleanup confirm_record accept_update
    set_update_record invalidate_health cancel
idle = refl

configured : m7.configured ≡ true
unfolding start_update restore_owns any_vmid package_busy scan_busy update_busy cleanup_busy
    health_busy any_at reviewed_plan get put pop member discard has_plan confirm_review
    complete_scan finish_scan publish_cleanup start_scan accept_scan retire_evidence package_plan
    set_record scan_outcome key_eq text_eq invalidate_cleanup confirm_record accept_update
    set_update_record invalidate_health cancel
configured = refl

unseen : get guest m7.cleanup_evidence ≡ none
unfolding get
unseen = refl

accept_update_heard-scan_example :
    (scan_busy guest.vmid (accept_update_heard (begin Start.scan guest 8) guest 7 false m7) ≡ true)
    × (update_busy guest.vmid (accept_update_heard (begin Start.scan guest 8) guest 7 false m7)
        ≡ true)
accept_update_heard-scan_example =
    accept_update_heard-scan guest 7 8 false m7 configured unrestored idle unseen
