-- ===== src/Manager/Exclusion/Adds.antt =====
-- How the writes of an accepted operation add to the counts of what is active
-- (custom_components/hubinet_ops/packages/manager.py).
use hubinet_ops_next.Prelude.{ℕ, ◌+◌, ◌≤◌, ◌≡◌, refl, Bool, false, arith, ◌==◌, to_num}
use hubinet_ops_next.Dict.{Key}
use hubinet_ops_next.Dict.Laws.{count_at-put}
use hubinet_ops_next.Models.{UpdateRecord, no_scan}
use hubinet_ops_next.Manager.State.{
  Manager, scan_is_running, update_is_running, set_record, new_ref, invalidate_cleanup,
  set_update_record, set_cleanup_record,
}
use hubinet_ops_next.Manager.Scan.{accept_scan, running_scan}
use hubinet_ops_next.Manager.Update.{
  accept_update, retire_evidence, running_update, accept_autoremove,
}
use hubinet_ops_next.Manager.Exclusion.{
  restores, scans, updates, cleanups, healths, IsExclusive, Quiet, Quiet-trans,
}
use hubinet_ops_next.Manager.Exclusion.Moves.{
  Quiet-set_record, Quiet-invalidate_health, Quiet-invalidate_cleanup, Quiet-same,
}

-- One activity more at one VMID, and nothing else.
pub record Adds (n : ℕ) (m m' : Manager) : Type 0 where
  pub restores_le : (v : ℕ) → restores v m' ≤ restores v m
  pub work_le :
      (v : ℕ)
      → scans v m' + updates v m' + cleanups v m'
        ≤ scans v m + updates v m + cleanups v m + to_num (n == v)
  pub healths_le : (v : ℕ) → healths v m' ≤ healths v m

-- It keeps the exclusion where nothing was active at that VMID.
pub Adds-IsExclusive :
    {n : ℕ} {m m' : Manager}
    → Adds n m m'
    → restores n m ≡ 0
    → scans n m ≡ 0
    → updates n m ≡ 0
    → cleanups n m ≡ 0
    → healths n m ≡ 0
    → IsExclusive m
    → IsExclusive m'
Adds-IsExclusive {n} a r s u c h e = record {
  mutations = λ v. ground (arith, a.restores_le v, a.work_le v, e.mutations v);
  work = λ v. ground (arith, a.healths_le v, a.work_le v, e.work v);
}

pub Adds-accept_scan : (k : Key) (at : ℕ) (m : Manager) → Adds k.vmid m (accept_scan k at m)
unfolding accept_scan set_record invalidate_cleanup restores scans updates cleanups healths
Adds-accept_scan k at m = record {
  restores_le = λ v. omega arith;
  work_le =
      λ v. ground (arith, count_at-put v scan_is_running k (new_ref (running_scan at) m) m.records);
  healths_le = λ v. omega arith;
}

-- What comes before the addition may be quiet.
pub Quiet-Adds : {n : ℕ} {a b c : Manager} → Quiet a b → Adds n b c → Adds n a c
Quiet-Adds q d = record {
  restores_le = λ v. omega (arith, q.restores_le v, d.restores_le v);
  work_le = λ v. omega (arith, q.scans_le v, q.updates_le v, q.cleanups_le v, d.work_le v);
  healths_le = λ v. omega (arith, q.healths_le v, d.healths_le v);
}

pub Adds-set_update_record :
    (k : Key) (r : UpdateRecord) (m : Manager) → Adds k.vmid m (set_update_record k r m)
unfolding set_update_record restores scans updates cleanups healths
Adds-set_update_record k r m = record {
  restores_le = λ v. omega arith;
  work_le = λ v. ground (arith, count_at-put v update_is_running k (new_ref r m) m.update_records);
  healths_le = λ v. omega arith;
}

pub Adds-set_cleanup_record :
    (k : Key) (r : UpdateRecord) (m : Manager) → Adds k.vmid m (set_cleanup_record k r m)
unfolding set_cleanup_record restores scans updates cleanups healths
Adds-set_cleanup_record k r m = record {
  restores_le = λ v. omega arith;
  work_le = λ v. ground (arith, count_at-put v update_is_running k (new_ref r m) m.cleanup_records);
  healths_le = λ v. omega arith;
}

-- And so may what comes after it.
pub Adds-Quiet : {n : ℕ} {a b c : Manager} → Adds n a b → Quiet b c → Adds n a c
Adds-Quiet d q = record {
  restores_le = λ v. omega (arith, q.restores_le v, d.restores_le v);
  work_le = λ v. omega (arith, q.scans_le v, q.updates_le v, q.cleanups_le v, d.work_le v);
  healths_le = λ v. omega (arith, q.healths_le v, d.healths_le v);
}

pub Quiet-retire_evidence : (k : Key) (m : Manager) → Quiet m (retire_evidence k m)
unfolding retire_evidence
Quiet-retire_evidence k m = Quiet-trans (Quiet-same refl refl refl refl refl) (
    Quiet-trans (Quiet-invalidate_cleanup k _)
      (Quiet-trans (Quiet-invalidate_health k _) (Quiet-set_record k no_scan _ refl)))

pub Adds-accept_update :
    (k : Key) (at : ℕ) (skip : Bool) (m : Manager) → Adds k.vmid m (accept_update k at skip m)
unfolding accept_update
Adds-accept_update k at skip m =
    Adds-Quiet
      (Quiet-Adds (Quiet-retire_evidence k m)
        (Adds-set_update_record k (running_update at skip) (retire_evidence k m)))
      (Quiet-same refl refl refl refl refl)

pub Adds-accept_autoremove :
    (k : Key) (at : ℕ) (m : Manager) → Adds k.vmid m (accept_autoremove k at m)
unfolding accept_autoremove
Adds-accept_autoremove k at m =
    Adds-Quiet
      (Quiet-Adds (Quiet-trans (Quiet-invalidate_cleanup k m) (Quiet-invalidate_health k _))
        (Adds-set_cleanup_record k (running_update at false) _))
      (Quiet-same refl refl refl refl refl)
