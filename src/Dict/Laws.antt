-- ===== src/Dict/Laws.antt =====
-- What the dictionaries and the sets of the package manager promise.
use hubinet_ops_next.Prelude.{
  ℕ, ◌+◌, ◌≤◌, ◌≡◌, refl, Bool, true, false, ◌&&◌, ◌||◌, Option, none, some, List, [], ◌∷◌, arith,
  ◌==◌, if◌then◌else◌, to_num,
}
use hubinet_ops_next.Dict.{
  Key, key_eq, key_eq_iff, Dict, get, put, pop, any_at, count_at, member, add, discard, any_vmid,
  count_vmid,
}

pub key_eq_refl : (k : Key) → key_eq k k ≡ true
key_eq_refl k = (key_eq_iff k k).1 refl

-- Whether an optional value passes a test.
abbrev pub holds {ℓ} : {V : Type ℓ} → (V → Bool) → Option V → Bool
holds test none = false
holds test (some v) = test v

module _ {ℓ} {V : Type ℓ} where
  pub get-put :
      (k j : Key) (v : V) (d : Dict V)
      → get j (put k v d) ≡ (if key_eq k j then some v else get j d)
  unfolding get put
  get-put k j v [] = refl
  get-put k j v ((i, w) ∷ d) =
      ground (arith, key_eq_iff k j, key_eq_iff i k, key_eq_iff i j, get-put k j v d)

  pub get-pop : (k j : Key) (d : Dict V) → get j (pop k d) ≡ (if key_eq k j then none else get j d)
  unfolding get pop
  get-pop k j [] = ground arith
  get-pop k j ((i, w) ∷ d) =
      ground (arith, key_eq_iff k j, key_eq_iff i k, key_eq_iff i j, get-pop k j d)

  -- A write takes away what the key held and adds what it is given.
  pub count_at-put :
      (n : ℕ) (test : V → Bool) (k : Key) (v : V) (d : Dict V)
      → count_at n test (put k v d) + to_num (k.vmid == n && holds test (get k d))
        ≡ count_at n test d + to_num (k.vmid == n && test v)
  unfolding count_at put get
  count_at-put n test k v [] = ground arith
  count_at-put n test k v ((i, w) ∷ d) = ground (arith, key_eq_iff i k, count_at-put n test k v d)

  pub count_at-pop :
      (n : ℕ) (test : V → Bool) (k : Key) (d : Dict V)
      → count_at n test (pop k d) ≤ count_at n test d
  unfolding count_at pop
  count_at-pop n test k [] = omega arith
  count_at-pop n test k ((i, w) ∷ d) = ground (arith, count_at-pop n test k d)

  pub count_at-any_at :
      (n : ℕ) (test : V → Bool) (d : Dict V) → any_at n test d ≡ false → count_at n test d ≡ 0
  unfolding count_at any_at
  count_at-any_at n test [] h = refl
  count_at-any_at n test ((i, w) ∷ d) h = ground (arith, count_at-any_at n test d)

pub member-add : (k j : Key) (s : List Key) → member j (add k s) ≡ (key_eq k j || member j s)
unfolding add member
member-add k j s = ground (arith, key_eq_iff k j)

pub member-discard :
    (k j : Key) (s : List Key) → member j (discard k s) ≡ (if key_eq k j then false else member j s)
unfolding member discard
member-discard k j [] = ground arith
member-discard k j (i ∷ s) =
    ground (arith, key_eq_iff k j, key_eq_iff i k, key_eq_iff i j, member-discard k j s)

pub count_vmid-add :
    (n : ℕ) (k : Key) (s : List Key)
    → count_vmid n (add k s) ≤ count_vmid n s + to_num (k.vmid == n)
unfolding count_vmid add
count_vmid-add n k s = ground arith

pub count_vmid-discard :
    (n : ℕ) (k : Key) (s : List Key) → count_vmid n (discard k s) ≤ count_vmid n s
unfolding count_vmid discard
count_vmid-discard n k [] = omega arith
count_vmid-discard n k (j ∷ s) = ground (arith, count_vmid-discard n k s)

pub count_vmid-any_vmid : (n : ℕ) (s : List Key) → any_vmid n s ≡ false → count_vmid n s ≡ 0
unfolding count_vmid any_vmid
count_vmid-any_vmid n [] h = refl
count_vmid-any_vmid n (j ∷ s) h = ground (arith, count_vmid-any_vmid n s)
