-- ===== src/Manager/Exclusion.antt =====
-- At most one activity per VMID: the counts of what is active, and how each operation of
-- `PackageManager` moves them (custom_components/hubinet_ops/packages/manager.py).
pub mod Moves
pub mod Discards
pub mod Adds
pub mod Starts
use hubinet_ops_next.Prelude.{
  ℕ, ◌+◌, ◌≤◌, ◌≡◌, refl, Bool, true, false, Option, none, some, List, [], ◌∷◌, arith, to_num, ◌==◌,
}
use hubinet_ops_next.Dict.{Key, get, put, pop, count_at, count_vmid, any_at, any_vmid}
use hubinet_ops_next.Dict.Laws.{
  count_at-put, count_at-pop, count_at-any_at, count_vmid-any_vmid, count_vmid-add,
  count_vmid-discard,
}
use hubinet_ops_next.Models.{ScanRecord, UpdateRecord, HealthRecord}
use hubinet_ops_next.Manager.State.{
  Ref, Manager, scan_is_running, update_is_running, health_is_running, restore_owns, scan_busy,
  update_busy, cleanup_busy, health_busy, set_record, invalidate_cleanup, new_ref,
}
use hubinet_ops_next.Manager.Scan.{start_scan, accept_scan, running_scan}

unfoldable pub restores : ℕ → Manager → ℕ
restores v m = count_vmid v m.restore_reserved

unfoldable pub scans : ℕ → Manager → ℕ
scans v m = count_at v scan_is_running m.records

unfoldable pub updates : ℕ → Manager → ℕ
updates v m = count_at v update_is_running m.update_records

unfoldable pub cleanups : ℕ → Manager → ℕ
cleanups v m = count_at v update_is_running m.cleanup_records

unfoldable pub healths : ℕ → Manager → ℕ
healths v m = count_at v health_is_running m.health_records

-- No two of Scan, Update, Autoremove and Restore are active for one VMID, and no two of Scan,
-- Update, Autoremove and Health.
pub record IsExclusive (m : Manager) : Type 0 where
  pub mutations : (v : ℕ) → restores v m + scans v m + updates v m + cleanups v m ≤ 1
  pub work : (v : ℕ) → scans v m + updates v m + cleanups v m + healths v m ≤ 1

-- What passing the guards of a start says.
pub restores_zero : (v : ℕ) (m : Manager) → restore_owns v m ≡ false → restores v m ≡ 0
unfolding restores restore_owns
restores_zero v m h = count_vmid-any_vmid v m.restore_reserved h

pub scans_zero : (v : ℕ) (m : Manager) → scan_busy v m ≡ false → scans v m ≡ 0
unfolding scans scan_busy
scans_zero v m h = count_at-any_at v scan_is_running m.records h

pub updates_zero : (v : ℕ) (m : Manager) → update_busy v m ≡ false → updates v m ≡ 0
unfolding updates update_busy
updates_zero v m h = count_at-any_at v update_is_running m.update_records h

pub cleanups_zero : (v : ℕ) (m : Manager) → cleanup_busy v m ≡ false → cleanups v m ≡ 0
unfolding cleanups cleanup_busy
cleanups_zero v m h = count_at-any_at v update_is_running m.cleanup_records h

pub healths_zero : (v : ℕ) (m : Manager) → health_busy v m ≡ false → healths v m ≡ 0
unfolding healths health_busy
healths_zero v m h = count_at-any_at v health_is_running m.health_records h

-- Nothing new is active.
pub record Quiet (m m' : Manager) : Type 0 where
  pub restores_le : (v : ℕ) → restores v m' ≤ restores v m
  pub scans_le : (v : ℕ) → scans v m' ≤ scans v m
  pub updates_le : (v : ℕ) → updates v m' ≤ updates v m
  pub cleanups_le : (v : ℕ) → cleanups v m' ≤ cleanups v m
  pub healths_le : (v : ℕ) → healths v m' ≤ healths v m

pub Quiet-refl : (m : Manager) → Quiet m m
Quiet-refl m = record {
  restores_le = λ v. omega arith;
  scans_le = λ v. omega arith;
  updates_le = λ v. omega arith;
  cleanups_le = λ v. omega arith;
  healths_le = λ v. omega arith;
}

pub Quiet-trans : {a b c : Manager} → Quiet a b → Quiet b c → Quiet a c
Quiet-trans p q = record {
  restores_le = λ v. omega (arith, p.restores_le v, q.restores_le v);
  scans_le = λ v. omega (arith, p.scans_le v, q.scans_le v);
  updates_le = λ v. omega (arith, p.updates_le v, q.updates_le v);
  cleanups_le = λ v. omega (arith, p.cleanups_le v, q.cleanups_le v);
  healths_le = λ v. omega (arith, p.healths_le v, q.healths_le v);
}

pub Quiet-IsExclusive : {a b : Manager} → Quiet a b → IsExclusive a → IsExclusive b
Quiet-IsExclusive q e = record {
  mutations = λ v.
      omega (arith, e.mutations v, q.restores_le v, q.scans_le v, q.updates_le v, q.cleanups_le v);
  work =
      λ v. omega (arith, e.work v, q.scans_le v, q.updates_le v, q.cleanups_le v, q.healths_le v);
}
