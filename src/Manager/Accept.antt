-- ===== src/Manager/Accept.antt =====
-- When `PackageManager` accepts an operation, and what it leaves on a refusal
-- (custom_components/hubinet_ops/packages/manager.py).
use hubinet_ops_next.Prelude.{ℕ, ◌≡◌, ◌↔◌, ◌⊎◌, Bool, true, false, some, List, arith, is_empty}
use hubinet_ops_next.Prelude.Results.{ok, err}
use hubinet_ops_next.Dict.{Key, get}
use hubinet_ops_next.Models.{UpdateError, RemovablePackage, CleanupEvidence}
use hubinet_ops_next.Manager.State.{Manager, new_ref, restore_owns, package_busy}
use hubinet_ops_next.Manager.Scan.{start_scan, accept_scan, running_scan}
use hubinet_ops_next.Manager.Update.{
  Attempt, PlanRow, start_update, accept_update, retire_evidence, running_update, reviewed_plan,
  start_autoremove, accept_autoremove, cleanup_plan,
}

-- What an Update asks for before it looks at the plan.
pub record MayUpdate (k : Key) (running permission skip : Bool) (m : Manager) : Type 0 where
  pub configured : m.configured ≡ true
  pub has_proxmox : m.has_proxmox ≡ true
  pub is_running : running ≡ true
  pub permitted : (skip ≡ true) ⊎ (permission ≡ true)
  pub unreserved : restore_owns k.vmid m ≡ false
  pub idle : package_busy k.vmid m ≡ false

-- Update is accepted exactly when it is configured, the guest runs, a snapshot is permitted or
-- skipped, nothing is active for the VMID, and the stored scan is successful, has packages and a
-- token and is reviewed; the attempt carries the plan of this scan, and its own record is a new
-- RUNNING one.
pub start_update_iff :
    (k : Key) (running permission skip : Bool) (at : ℕ) (m : Manager) (x : Attempt (List PlanRow))
    → ((start_update k running permission skip at m).0 ≡ ok x) ↔ (
        MayUpdate k running permission skip m
        × (reviewed_plan (get k m.records) ≡ some x.plan)
        × (x.own ≡ new_ref (running_update at skip) (retire_evidence k m)))
unfolding start_update
start_update_iff k running permission skip at m x = ground arith

pub start_update_state :
    (k : Key) (running permission skip : Bool) (at : ℕ) (m : Manager)
    → ((x : Attempt (List PlanRow))
        → (start_update k running permission skip at m).0 ≡ ok x
        → (start_update k running permission skip at m).1 ≡ accept_update k at skip m)
      × ((e : UpdateError)
          → (start_update k running permission skip at m).0 ≡ err e
          → (start_update k running permission skip at m).1 ≡ m)
unfolding start_update
start_update_state k running permission skip at m = ground arith

-- An Update that is refused, for whatever reason, leaves the manager as it is: the evidence and
-- the review stay.
pub start_update_refused :
    (k : Key) (running permission skip : Bool) (at : ℕ) (m : Manager) (e : UpdateError)
    → (start_update k running permission skip at m).0 ≡ err e
    → (start_update k running permission skip at m).1 ≡ m
start_update_refused k running permission skip at m =
    (start_update_state k running permission skip at m).1

-- Autoremove is accepted exactly when it is configured, the guest runs, a snapshot is permitted,
-- nothing is active for the VMID, and non-empty cleanup evidence is stored; the attempt carries
-- the plan of this evidence, and its own record is a new RUNNING one.
pub start_autoremove_iff :
    (k : Key) (running permission : Bool) (at : ℕ) (m : Manager)
    (x : Attempt (List RemovablePackage))
    → ((start_autoremove k running permission at m).0 ≡ ok x) ↔ (
        MayUpdate k running permission false m
        × ((e : CleanupEvidence) × (get k m.cleanup_evidence ≡ some e)
            × (is_empty e.candidates ≡ false)
            × (x.plan ≡ cleanup_plan e.candidates))
        × (x.own ≡ new_ref (running_update at false) m))
unfolding start_autoremove
start_autoremove_iff k running permission at m x = ground arith

pub start_autoremove_state :
    (k : Key) (running permission : Bool) (at : ℕ) (m : Manager)
    → ((x : Attempt (List RemovablePackage))
        → (start_autoremove k running permission at m).0 ≡ ok x
        → (start_autoremove k running permission at m).1 ≡ accept_autoremove k at m)
      × ((e : UpdateError)
          → (start_autoremove k running permission at m).0 ≡ err e
          → (start_autoremove k running permission at m).1 ≡ m)
unfolding start_autoremove
start_autoremove_state k running permission at m = ground arith

-- A cleanup that is refused leaves the manager as it is.
pub start_autoremove_refused :
    (k : Key) (running permission : Bool) (at : ℕ) (m : Manager) (e : UpdateError)
    → (start_autoremove k running permission at m).0 ≡ err e
    → (start_autoremove k running permission at m).1 ≡ m
start_autoremove_refused k running permission at m =
    (start_autoremove_state k running permission at m).1

-- What a Scan asks for.
pub record MayScan (k : Key) (running : Bool) (m : Manager) : Type 0 where
  pub configured : m.configured ≡ true
  pub is_running : running ≡ true
  pub unreserved : restore_owns k.vmid m ≡ false
  pub idle : package_busy k.vmid m ≡ false

pub start_scan_iff :
    (k : Key) (running : Bool) (at : ℕ) (m : Manager)
    → (((start_scan k running at m).0 ≡ ok (new_ref (running_scan at) m)) ↔ MayScan k running m)
      × (MayScan k running m → (start_scan k running at m).1 ≡ accept_scan k at m)
      × (¬ MayScan k running m → (start_scan k running at m).1 ≡ m)
unfolding start_scan package_busy
start_scan_iff k running at m = ground arith

-- A Scan is accepted exactly when it is configured, the guest runs and no Restore, Scan, Update,
-- Autoremove or Health check is active for the VMID under any node.
pub start_scan_accepts :
    (k : Key) (running : Bool) (at : ℕ) (m : Manager)
    → ((start_scan k running at m).0 ≡ ok (new_ref (running_scan at) m)) ↔ MayScan k running m
start_scan_accepts k running at m = (start_scan_iff k running at m).0

pub MayScan-cases :
    (k : Key) (running : Bool) (m : Manager) → MayScan k running m ⊎ (¬ MayScan k running m)
MayScan-cases k running m = ground arith
