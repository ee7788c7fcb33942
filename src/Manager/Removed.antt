-- ===== src/Manager/Removed.antt =====
-- What is left of an LXC that Proxmox no longer shows (`async_prune` of
-- custom_components/hubinet_ops/packages/manager.py).
use hubinet_ops_next.Prelude.{
  ◌≡◌, refl, inl, inr, Bool, true, false, not, ◌&&◌, ◌||◌, none, List, [], ◌∷◌, ◌++◌, arith,
  if◌then◌else◌, is_empty, Bool-cases,
}
use hubinet_ops_next.Dict.{Key, key_eq, key_eq_iff, Dict, get, keys, member}
use hubinet_ops_next.Dict.Laws.{get-pop, member-add, member-discard, key_eq_refl}
use hubinet_ops_next.Manager.State.{Manager, Notice, notify, invalidate_health}
use hubinet_ops_next.Manager.Prune.{
  to_set, difference, known_targets, prune_target, prune_all, prune,
}

-- Nothing is stored for the target that a listener could be shown.
pub record IsGone (k : Key) (m : Manager) : Type 0 where
  pub no_scan : get k m.records ≡ none
  pub no_update : get k m.update_records ≡ none
  pub no_evidence : get k m.cleanup_evidence ≡ none
  pub no_cleanup : get k m.cleanup_records ≡ none
  pub no_health : get k m.health_records ≡ none
  pub no_fence : member k m.fenced_evidence ≡ false

IsGone-prune_target : (k : Key) (m : Manager) → IsGone k (prune_target k m)
unfolding prune_target invalidate_health
IsGone-prune_target k m = record {
  no_scan = ground (arith, get-pop k k m.records, key_eq_refl k);
  no_update = ground (arith, get-pop k k m.update_records, key_eq_refl k);
  no_evidence = ground (arith, get-pop k k m.cleanup_evidence, key_eq_refl k);
  no_cleanup = ground (arith, get-pop k k m.cleanup_records, key_eq_refl k);
  no_health = ground (arith, get-pop k k m.health_records, key_eq_refl k);
  no_fence = ground (arith, member-discard k k m.fenced_evidence, key_eq_refl k);
}

IsGone-kept : (j k : Key) (m : Manager) → IsGone k m → IsGone k (prune_target j m)
unfolding prune_target invalidate_health
IsGone-kept j k m g = record {
  no_scan = ground (arith, get-pop j k m.records, g.no_scan);
  no_update = ground (arith, get-pop j k m.update_records, g.no_update);
  no_evidence = ground (arith, get-pop j k m.cleanup_evidence, g.no_evidence);
  no_cleanup = ground (arith, get-pop j k m.cleanup_records, g.no_cleanup);
  no_health = ground (arith, get-pop j k m.health_records, g.no_health);
  no_fence = ground (arith, member-discard j k m.fenced_evidence, g.no_fence);
}

IsGone-prune_all : (ks : List Key) (k : Key) (m : Manager) → IsGone k m → IsGone k (prune_all ks m)
unfolding prune_all
IsGone-prune_all [] k m g = g
IsGone-prune_all (j ∷ ks) k m g = IsGone-prune_all ks k (prune_target j m) (IsGone-kept j k m g)

prune_all-IsGone :
    (ks : List Key) (k : Key) (m : Manager) → member k ks ≡ true → IsGone k (prune_all ks m)
unfolding prune_all member
prune_all-IsGone [] k m h = cc
prune_all-IsGone (j ∷ ks) k m h = elim (Bool-cases (key_eq j k)) [
  | inl e ↦
      IsGone-prune_all ks k (prune_target j m) (rw ((key_eq_iff j k).0 e) (IsGone-prune_target k m))
  | inr e ↦ prune_all-IsGone ks k (prune_target j m) (ground (arith, e))
]

member-append : (k : Key) (xs ys : List Key) → member k (xs ++ ys) ≡ (member k xs || member k ys)
unfolding member
member-append k [] ys = refl
member-append k (x ∷ xs) ys = ground (arith, member-append k xs ys)

member-to_set : (k : Key) (xs : List Key) → member k (to_set xs) ≡ member k xs
unfolding to_set member
member-to_set k [] = refl
member-to_set k (x ∷ xs) = ground (arith, member-add x k (to_set xs), member-to_set k xs)

member-difference :
    (k : Key) (xs ys : List Key) → member k (difference xs ys) ≡ (member k xs && not (member k ys))
unfolding difference member
member-difference k [] ys = refl
member-difference k (x ∷ xs) ys = ground (arith, member-difference k xs ys, key_eq_iff x k)

get-keys : {V : Type 0} (k : Key) (d : Dict V) → member k (keys d) ≡ false → get k d ≡ none
unfolding get keys member
get-keys k [] h = refl
get-keys k ((j, v) ∷ d) h = ground (arith, get-keys k d)

unknown-IsGone : (k : Key) (m : Manager) → member k (known_targets m) ≡ false → IsGone k m
unfolding known_targets
unknown-IsGone k m h =
    let e =
      rw (member-to_set, member-append, member-append, member-append, member-append, member-append)
        at h in
    record {
      no_scan = get-keys k m.records (ground (arith, e));
      no_update = get-keys k m.update_records (ground (arith, e));
      no_evidence = get-keys k m.cleanup_evidence (ground (arith, e));
      no_cleanup = get-keys k m.cleanup_records (ground (arith, e));
      no_health = get-keys k m.health_records (ground (arith, e));
      no_fence = ground (arith, e);
    }

pruned :
    (b : Bool) (k : Key) (m m' : Manager)
    → (b ≡ true → IsGone k m)
    → IsGone k m'
    → IsGone k (if b then m else m')
pruned true k m m' h g = h refl
pruned false k m m' h g = g

IsGone-notify : (k : Key) (n : Notice) (m : Manager) → IsGone k m → IsGone k (notify n m)
IsGone-notify k n m g = record {
  no_scan = g.no_scan;
  no_update = g.no_update;
  no_evidence = g.no_evidence;
  no_cleanup = g.no_cleanup;
  no_health = g.no_health;
  no_fence = g.no_fence;
}

empty-member : (k : Key) (ks : List Key) → is_empty ks ≡ true → member k ks ≡ false
unfolding member
empty-member k [] h = refl
empty-member k (x ∷ ks) h = cc

-- After a discovery that does not show an LXC, nothing is stored for it: no scan, no update, no
-- cleanup evidence or record, no Health record and no fence.
pub prune-IsGone :
    (current : List Key) (m : Manager) (k : Key)
    → member k current ≡ false
    → IsGone k (prune current m)
unfolding prune
prune-IsGone current m k h =
    let stale = difference (known_targets m) current in
    let told = IsGone-notify k Notice.state_change (prune_all stale m) in
    elim (Bool-cases (member k (known_targets m))) [
      | inl e ↦
          let there : member k stale ≡ true =
            ground (arith, member-difference k (known_targets m) current, e, h) in
          pruned (is_empty stale) k m (notify Notice.state_change (prune_all stale m))
            (λ b. cc (there, empty-member k stale b)) (told (prune_all-IsGone stale k m there))
      | inr e ↦
          let gone = unknown-IsGone k m e in
          pruned (is_empty stale) k m (notify Notice.state_change (prune_all stale m)) (λ b. gone)
            (told (IsGone-prune_all stale k m gone))
    ]
