-- ===== src/Dict.antt =====
-- The dictionaries and the sets of the package manager, keyed by `(node, vmid)`
-- (custom_components/hubinet_ops/packages/manager.py): Python's `dict` as an association list in
-- insertion order, and `set` as a list.
pub mod Laws
use hubinet_ops_next.Prelude.{
  ℕ, ◌+◌, ◌≡◌, ◌↔◌, Bool, true, false, not, ◌&&◌, ◌||◌, Option, none, some, List, [], ◌∷◌, arith,
  Text, text_eq, text_eq_iff, ◌==◌, if◌then◌else◌, to_num,
}

-- The identity of an LXC: the name of its Proxmox node and its VMID.
pub record Key : Type 0 where
  pub node : Text
  pub vmid : ℕ

unfoldable pub key_eq : Key → Key → Bool
key_eq a b = text_eq a.node b.node && (a.vmid == b.vmid)

pub key_eq_iff : (a b : Key) → (key_eq a b ≡ true) ↔ (a ≡ b)
unfolding key_eq
key_eq_iff a b = ground (arith, text_eq_iff a.node b.node)

abbrev pub Dict {ℓ} : Type ℓ → Type ℓ
Dict V = List (Key × V)

module _ {ℓ} {V : Type ℓ} where
  -- `d.get(key)`
  unfoldable pub get : Key → Dict V → Option V
  get k [] = none
  get k ((j, v) ∷ d) = if key_eq j k then some v else get k d

  -- `d[key] = value`: the place of a key that is there is kept.
  unfoldable pub put : Key → V → Dict V → Dict V
  put k v [] = (k, v) ∷ []
  put k v ((j, w) ∷ d) = if key_eq j k then (k, v) ∷ d else (j, w) ∷ put k v d

  -- `d.pop(key, None)`
  unfoldable pub pop : Key → Dict V → Dict V
  pop k [] = []
  pop k ((j, v) ∷ d) = let rest = pop k d in if key_eq j k then rest else (j, v) ∷ rest

  -- `any(target_vmid == vmid and test(record) for (_node, target_vmid), record in d.items())`
  unfoldable pub any_at : ℕ → (V → Bool) → Dict V → Bool
  any_at vmid test [] = false
  any_at vmid test ((j, v) ∷ d) = (j.vmid == vmid && test v) || any_at vmid test d

  -- The number of entries that `any_at` looks for.
  unfoldable pub count_at : ℕ → (V → Bool) → Dict V → ℕ
  count_at vmid test [] = 0
  count_at vmid test ((j, v) ∷ d) = to_num (j.vmid == vmid && test v) + count_at vmid test d

  -- `d.keys()`
  unfoldable pub keys : Dict V → List Key
  keys [] = []
  keys ((j, v) ∷ d) = j ∷ keys d

-- `key in s`
unfoldable pub member : Key → List Key → Bool
member k [] = false
member k (j ∷ s) = key_eq j k || member k s

-- `s.add(key)`
unfoldable pub add : Key → List Key → List Key
add k s = if member k s then s else k ∷ s

-- `s.discard(key)`
unfoldable pub discard : Key → List Key → List Key
discard k [] = []
discard k (j ∷ s) = let rest = discard k s in if key_eq j k then rest else j ∷ rest

-- `any(target_vmid == vmid for _node, target_vmid in s)`
unfoldable pub any_vmid : ℕ → List Key → Bool
any_vmid vmid [] = false
any_vmid vmid (j ∷ s) = j.vmid == vmid || any_vmid vmid s

-- The number of keys that `any_vmid` looks for.
unfoldable pub count_vmid : ℕ → List Key → ℕ
count_vmid vmid [] = 0
count_vmid vmid (j ∷ s) = to_num (j.vmid == vmid) + count_vmid vmid s
