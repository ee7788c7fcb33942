-- ===== src/Manager/Exclusion/Starts.antt =====
-- The operations of `PackageManager` that start something keep the exclusion
-- (custom_components/hubinet_ops/packages/manager.py).
use hubinet_ops_next.Prelude.{
  ℕ, ◌≡◌, refl, Bool, true, false, not, ◌&&◌, ◌||◌, Option, none, some, List, arith, if◌then◌else◌,
  is_empty,
}
use hubinet_ops_next.Dict.{Key, get, add}
use hubinet_ops_next.Dict.Laws.{count_at-put, count_vmid-add}
use hubinet_ops_next.Models.{CleanupEvidence, HealthSource}
use hubinet_ops_next.Manager.State.{
  Manager, Notice, notify, health_is_running, new_ref, health_claim, claim_health_record,
  restore_owns, scan_busy, update_busy, cleanup_busy, health_busy, package_busy,
}
use hubinet_ops_next.Manager.Scan.{start_scan}
use hubinet_ops_next.Manager.Update.{
  begin_update, begin_autoremove, start_update, accept_update, PlanRow, reviewed_plan,
  start_autoremove, accept_autoremove,
}
use hubinet_ops_next.Manager.Health.{Launch, start_health}
use hubinet_ops_next.Manager.Restore.{begin_restore}
use hubinet_ops_next.Manager.Exclusion.{
  restores, scans, updates, cleanups, healths, IsExclusive, Quiet-IsExclusive, restores_zero,
  scans_zero, updates_zero, cleanups_zero, healths_zero,
}
use hubinet_ops_next.Manager.Exclusion.Moves.{Quiet-launch_health}
use hubinet_ops_next.Manager.Exclusion.Adds.{
  Adds, Adds-IsExclusive, Adds-accept_scan, Adds-accept_update, Adds-accept_autoremove,
}

-- A guard: what raises leaves the manager as it is.
Guard {ℓ} :
    {A : Type ℓ} (b : Bool) (x y : A × Manager)
    → IsExclusive x.1
    → (b ≡ false → IsExclusive y.1)
    → IsExclusive (if b then x else y).1
Guard true x y p q = p
Guard false x y p q = q refl

pub start_scan-IsExclusive :
    (k : Key) (running : Bool) (at : ℕ) (m : Manager)
    → IsExclusive m
    → IsExclusive (start_scan k running at m).1
unfolding start_scan
start_scan-IsExclusive k running at m e = Guard (not m.configured) _ _ e λ _.
    Guard (not running) _ _ e λ _. Guard (restore_owns k.vmid m) _ _ e λ r.
      Guard (scan_busy k.vmid m) _ _ e λ s. Guard (update_busy k.vmid m) _ _ e λ u.
        Guard (cleanup_busy k.vmid m) _ _ e λ c. Guard (health_busy k.vmid m) _ _ e λ h.
          Adds-IsExclusive (Adds-accept_scan k at m) (restores_zero _ m r) (scans_zero _ m s)
            (updates_zero _ m u) (cleanups_zero _ m c) (healths_zero _ m h) e

-- What the joint test of Update, Autoremove and Health says.
package_busy_split :
    (v : ℕ) (m : Manager)
    → package_busy v m ≡ false
    → (scan_busy v m ≡ false)
      × (update_busy v m ≡ false)
      × (cleanup_busy v m ≡ false)
      × (health_busy v m ≡ false)
unfolding package_busy
package_busy_split v m h = ground arith

free-IsExclusive :
    (n : ℕ) {m m' : Manager}
    → Adds n m m'
    → restore_owns n m ≡ false
    → package_busy n m ≡ false
    → IsExclusive m
    → IsExclusive m'
free-IsExclusive n {m} a r p e =
    let (s, u, c, h) = package_busy_split n m p in
    Adds-IsExclusive a (restores_zero n m r) (scans_zero n m s) (updates_zero n m u)
      (cleanups_zero n m c) (healths_zero n m h) e

begin_update-IsExclusive :
    (k : Key) (at : ℕ) (skip : Bool) (m : Manager) (o : Option (List PlanRow))
    → IsExclusive m
    → IsExclusive (accept_update k at skip m)
    → IsExclusive (begin_update k at skip m o).1
begin_update-IsExclusive k at skip m none e a = e
begin_update-IsExclusive k at skip m (some plan) e a = a

pub start_update-IsExclusive :
    (k : Key) (running permission skip : Bool) (at : ℕ) (m : Manager)
    → IsExclusive m
    → IsExclusive (start_update k running permission skip at m).1
unfolding start_update
start_update-IsExclusive k running permission skip at m e =
    Guard (not m.configured || not m.has_proxmox) _ _ e λ _. Guard (not running) _ _ e λ _.
      Guard (not skip && not permission) _ _ e λ _. Guard (restore_owns k.vmid m) _ _ e λ r.
        Guard (package_busy k.vmid m) _ _ e λ p.
          begin_update-IsExclusive k at skip m (reviewed_plan (get k m.records)) e
            (free-IsExclusive k.vmid (Adds-accept_update k at skip m) r p e)

begin_autoremove-IsExclusive :
    (k : Key) (at : ℕ) (m : Manager) (o : Option CleanupEvidence)
    → IsExclusive m
    → IsExclusive (accept_autoremove k at m)
    → IsExclusive (begin_autoremove k at m o).1
begin_autoremove-IsExclusive k at m none e a = e
begin_autoremove-IsExclusive k at m (some x) e a = Guard (is_empty x.candidates) _ _ e (λ _. a)

pub start_autoremove-IsExclusive :
    (k : Key) (running permission : Bool) (at : ℕ) (m : Manager)
    → IsExclusive m
    → IsExclusive (start_autoremove k running permission at m).1
unfolding start_autoremove
start_autoremove-IsExclusive k running permission at m e =
    Guard (not m.configured || not m.has_proxmox) _ _ e λ _. Guard (not running) _ _ e λ _.
      Guard (not permission) _ _ e λ _. Guard (restore_owns k.vmid m) _ _ e λ r.
        Guard (package_busy k.vmid m) _ _ e λ p.
          begin_autoremove-IsExclusive k at m (get k m.cleanup_evidence) e
            (free-IsExclusive k.vmid (Adds-accept_autoremove k at m) r p e)

-- A Health claim where nothing else runs; a Restore may stand.
claim-IsExclusive :
    (k : Key) (source : HealthSource) (m : Manager)
    → scans k.vmid m ≡ 0
    → updates k.vmid m ≡ 0
    → cleanups k.vmid m ≡ 0
    → healths k.vmid m ≡ 0
    → IsExclusive m
    → IsExclusive (claim_health_record k source m)
unfolding claim_health_record restores scans updates cleanups healths
claim-IsExclusive k source m s u c h e = record {
  mutations = λ v. e.mutations v;
  work = λ v. ground (
    arith,
    e.work v,
    count_at-put v health_is_running k (new_ref (health_claim source) m) m.health_records,
  );
}

pub start_health-IsExclusive :
    (k : Key) (running : Bool) (l : Launch) (m : Manager)
    → IsExclusive m
    → IsExclusive (start_health k running l m).1
unfolding start_health
start_health-IsExclusive k running l m e = Guard (not m.configured) _ _ e λ _.
    Guard (not running) _ _ e λ _. Guard (restore_owns k.vmid m) _ _ e λ _.
      Guard (package_busy k.vmid m) _ _ e λ p.
        let (s, u, c, h) = package_busy_split k.vmid m p in
        Quiet-IsExclusive (Quiet-launch_health k _ l _) (
          claim-IsExclusive k HealthSource.manual m (scans_zero _ m s) (updates_zero _ m u)
            (cleanups_zero _ m c) (healths_zero _ m h) e)

-- A reservation where nothing but Health runs.
reserve-IsExclusive :
    (k : Key) (m : Manager)
    → restores k.vmid m ≡ 0
    → scans k.vmid m ≡ 0
    → updates k.vmid m ≡ 0
    → cleanups k.vmid m ≡ 0
    → IsExclusive m
    → IsExclusive
        (notify Notice.state_change (record m { restore_reserved = add k m.restore_reserved }))
unfolding restores scans updates cleanups healths
reserve-IsExclusive k m r s u c e = record {
  mutations = λ v. ground (arith, e.mutations v, count_vmid-add v k m.restore_reserved);
  work = λ v. e.work v;
}

pub begin_restore-IsExclusive :
    (k : Key) (m : Manager) → IsExclusive m → IsExclusive (begin_restore k m).1
unfolding begin_restore
begin_restore-IsExclusive k m e = Guard (restore_owns k.vmid m) _ _ e λ r.
    Guard (scan_busy k.vmid m || (update_busy k.vmid m || cleanup_busy k.vmid m)) _ _ e λ b.
      reserve-IsExclusive k m (restores_zero _ m r) (scans_zero _ m (ground arith))
        (updates_zero _ m (ground arith)) (cleanups_zero _ m (ground arith)) e
