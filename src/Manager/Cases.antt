-- ===== src/Manager/Cases.antt =====
-- A guest with one pending package, and the states that the examples start from
-- (custom_components/hubinet_ops/packages/manager.py).
use hubinet_ops_next.Prelude.{true, false, none, some, List, [], ◌∷◌, Text, codes}
use hubinet_ops_next.Prelude.Results.{returned}
use hubinet_ops_next.Dict.{Key}
use hubinet_ops_next.Models.{PendingPackage, ScanResult, ScanRecord, RemovablePackage}
use hubinet_ops_next.Manager.State.{Ref, Manager, new_manager, new_ref}
use hubinet_ops_next.Manager.Scan.{
  start_scan, running_scan, complete_scan, publish_cleanup, confirm_review,
}
use hubinet_ops_next.Manager.Update.{
  package_plan, Attempt, PlanRow, running_update, retire_evidence, cleanup_plan,
}

abbrev pub guest : Key
guest = record { node = 112 ∷ 118 ∷ 101 ∷ []; vmid = 101 }

abbrev pub token : Text
token = 97 ∷ 49 ∷ []

abbrev pub pending : PendingPackage
pending = record {
  name = 98 ∷ 97 ∷ 115 ∷ 104 ∷ [];
  architecture = 97 ∷ [];
  installed_version = 49 ∷ [];
  candidate_version = 50 ∷ [];
  origin = none;
  security = none;
}

abbrev pub result : ScanResult
result = record {
  os_id = 100 ∷ [];
  os_version = 49 ∷ [];
  packages = pending ∷ [];
  reboot_required = none;
  not_upgraded_count = 0;
}

abbrev pub m0 : Manager
m0 = new_manager true true

abbrev pub scan_own : Ref ScanRecord
scan_own = new_ref (running_scan 5) m0

abbrev pub m1 : Manager
m1 = (start_scan guest true 5 m0).1

abbrev pub m2 : Manager
m2 = complete_scan guest scan_own 5 token (returned result) (returned []) 6 true m1

abbrev pub m3 : Manager
m3 = (confirm_review guest token m2).1

abbrev pub attempt : Attempt (List PlanRow)
attempt = record {
  own = new_ref (running_update 7 false) (retire_evidence guest m3);
  plan = package_plan (pending ∷ []);
}

abbrev pub removable : RemovablePackage
removable = record { name = 98 ∷ []; architecture = 97 ∷ []; installed_version = 49 ∷ [] }

abbrev pub m4 : Manager
m4 = publish_cleanup guest (some (removable ∷ [])) (codes "scan") 6 true m0

abbrev pub cleaning : Attempt (List RemovablePackage)
cleaning = record {
  own = new_ref (running_update 7 false) m4;
  plan = cleanup_plan (removable ∷ []);
}
