-- ===== src/Transport/Examples.antt =====
-- Replies of the helper for one guest (custom_components/hubinet_ops/packages/transport.py).
use hubinet_ops_next.Prelude.{
  ◌≡◌, ◌≢◌, refl, true, false, none, some, [], ◌∷◌, Text, codes, text_eq, starts_with,
}
use hubinet_ops_next.Prelude.Results.{Result, ok, returned}
use hubinet_ops_next.Models.{ScanResult, HealthEvidence, HealthOutcome, HealthReason, DpkgState}
use hubinet_ops_next.Models.Health.{classify_health}
use hubinet_ops_next.Process.{Mutation}
use hubinet_ops_next.Parser.Match.{is_architecture}
use hubinet_ops_next.Parser.Evidence.{Inventory}
use hubinet_ops_next.Parser.Examples.{
  tables, upgrade_text, native_text, inventory_text, bash, bash_id,
}
use hubinet_ops_next.Snapshots.{is_letter}
use hubinet_ops_next.Native.{pos}
use hubinet_ops_next.Transport.{
  Value, null, bool, int, text, object, Fields, empty, field, Target, Failure,
}
use hubinet_ops_next.Transport.Update.{async_update}
use hubinet_ops_next.Transport.Scan.{async_scan}
use hubinet_ops_next.Transport.Health.{async_check_health}
use hubinet_ops_next.Transport.Identity.{IsReply}
use hubinet_ops_next.Transport.Evidence.{IsFinished, async_update-IsFinished}
use hubinet_ops_next.Transport.Verdict.{IsConsistent, async_check_health-IsConsistent}
use hubinet_ops_next.Transport.Scanned.{IsScanned, async_scan-IsScanned}

abbrev target : Target
target = record { node = codes "pve"; vmid = 101 }

abbrev named : Fields
named = field (codes "node") (text (codes "pve")) (field (codes "vmid") (int (pos 101)) empty)

-- A successful reply.
abbrev reply : Text → Fields → Fields
reply operation evidence = field (codes "protocol_version") (int (pos 1)) (
    field (codes "helper_version") (int (pos 3)) (
      field (codes "operation") (text operation) (
        field (codes "target") (object named)
          (field (codes "ok") (bool true) (field (codes "evidence") (object evidence) empty)))))

abbrev inventories : Fields
inventories =
    field (codes "before_inventory") (text inventory_text)
      (field (codes "after_inventory") (text inventory_text) empty)

abbrev mutation : Mutation
mutation = record { before = (bash_id, codes "1") ∷ []; after = (bash_id, codes "1") ∷ [] }

abbrev update_reply : Result Failure Value
update_reply = ok (object (reply (codes "update_packages") inventories))

updated : async_update tables target update_reply ≡ returned mutation
unfolding async_update hubinet_ops_next.Transport.◌>>=◌ hubinet_ops_next.Parser.Fault.◌>>=◌
    hubinet_ops_next.Transport.refuse_if hubinet_ops_next.Parser.Fault.refuse_if
    hubinet_ops_next.Transport.present codes text_eq is_architecture is_letter starts_with
updated = refl

async_update-IsFinished_example :
    (p : Fields) × (e : Fields) × (before : Inventory) × (after_it : Inventory) × (update_reply
      ≡ ok (object p))
    × IsReply target (codes "update_packages") p e
    × IsFinished e "before_inventory" before
    × IsFinished e "after_inventory" after_it
    × (mutation.before ≡ before.versions)
    × (mutation.after ≡ after_it.versions)
async_update-IsFinished_example =
    async_update-IsFinished tables target update_reply mutation updated

abbrev scan_fields : Fields
scan_fields = field (codes "os_release") (text (codes "ID=debian\nVERSION_ID=12\n")) (
    field (codes "native_architecture") (text native_text) (
      field (codes "installed_inventory") (text inventory_text)
        (field (codes "simulation") (text upgrade_text) empty)))

abbrev scan_reply : Result Failure Value
scan_reply = ok (object (reply (codes "scan_packages") scan_fields))

abbrev scanned : ScanResult
scanned = record {
  os_id = codes "debian";
  os_version = codes "12";
  packages = bash ∷ [];
  reboot_required = none;
  not_upgraded_count = 0;
}

-- No value is printed in a successful scan.
abbrev show : Value → Text
show v = []

has_scanned : async_scan show tables target scan_reply ≡ returned scanned
unfolding async_scan hubinet_ops_next.Transport.◌>>=◌ hubinet_ops_next.Parser.Fault.◌>>=◌
    hubinet_ops_next.Transport.refuse_if hubinet_ops_next.Parser.Fault.refuse_if
    hubinet_ops_next.Transport.present codes text_eq is_architecture is_letter starts_with
has_scanned = refl

async_scan-IsScanned_example :
    (p : Fields) × (e : Fields) × (scan_reply ≡ ok (object p))
    × IsReply target (codes "scan_packages") p e
    × IsScanned e scanned
async_scan-IsScanned_example =
    async_scan-IsScanned show tables target scan_reply scanned has_scanned

abbrev health_reply : Result Failure Value
health_reply = ok (
    object (
      reply (codes "check_health") (
        field (codes "guest_exec") (bool true) (
          field (codes "guest_exec_unavailable") (bool false) (
            field (codes "dpkg") (text (codes "interrupted")) (
              field (codes "unfinished_package_count") (int (pos 2))
                (field (codes "reboot_required") null empty)))))))

abbrev verdict : HealthOutcome
verdict = classify_health (record {
  guest_exec = true;
  guest_exec_unavailable = false;
  dpkg = some DpkgState.interrupted;
  unfinished_package_count = some 2;
  reboot_required = none;
})

has_checked : async_check_health target health_reply ≡ returned verdict
unfolding async_check_health hubinet_ops_next.Transport.◌>>=◌ hubinet_ops_next.Parser.Fault.◌>>=◌
    hubinet_ops_next.Transport.refuse_if hubinet_ops_next.Parser.Fault.refuse_if
    hubinet_ops_next.Transport.present codes text_eq is_architecture is_letter starts_with
has_checked = refl

async_check_health-IsConsistent_example :
    ((e : HealthEvidence) × IsConsistent e × (verdict ≡ classify_health e))
    × (verdict.reason ≢ some HealthReason.malformed_evidence)
async_check_health-IsConsistent_example =
    async_check_health-IsConsistent target health_reply verdict has_checked
