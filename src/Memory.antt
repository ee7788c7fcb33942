-- ===== src/Memory.antt =====
-- The memory of a virtual machine (custom_components/hubinet_ops/vm_memory.py). A number is an integer
-- or not finite here: the shares in percent, which divide floats, are not modelled.
use hubinet_ops_next.Prelude.{
  ℕ, ◌≡◌, ◌+◌, ◌-◌, refl, Bool, true, false, not, ◌||◌, Option, none, some, arith, if◌then◌else◌,
  ltb, ◌==◌,
}

-- A value of the payload
pub data Value : Type 0 where
  null : Value
  boolean : Bool → Value
  natural : ℕ → Value
  negative : ℕ → Value
  non_finite : Value
  other : Value

-- The balloon data, a key that is missing as none
pub record Balloon : Type 0 where
  pub max_mem : Option Value
  pub total_mem : Option Value
  pub free_mem : Option Value

-- What stands under `ballooninfo`: nothing (the key is missing, or None), a mapping or another value
pub data Info : Type 0 where
  no_info : Info
  mapping : Balloon → Info
  other_info : Info

pub record Payload : Type 0 where
  pub is_running : Bool
  pub memhost : Option Value
  pub freemem : Option Value
  pub mem : Option Value
  pub ballooninfo : Info

unfoldable pub amount : Value → Option ℕ
amount null = none
amount (boolean b) = none
amount (natural n) = some n
amount (negative n) = none
amount non_finite = none
amount other = none

-- `_amount(data.get(key))`
unfoldable pub amount_of : Option Value → Option ℕ
unfolding amount
amount_of none = none
amount_of (some v) = amount v

abbrev is_in : Option Value → Bool
is_in none = false
is_in (some v) = true

abbrev info_evidence : Info → Bool
info_evidence no_info = false
info_evidence (mapping b) = is_in b.total_mem || is_in b.free_mem
info_evidence other_info = true

unfoldable pub guest_evidence : Payload → Bool
guest_evidence p = if is_in p.freemem then true else info_evidence p.ballooninfo

unfoldable pub vm_host_memory : Payload → Option ℕ
unfolding guest_evidence amount_of
vm_host_memory p =
    if is_in p.memhost
    then amount_of p.memhost
    else if guest_evidence p
    then none
    else amount_of p.mem

-- `"freemem" in data and _amount(data["freemem"]) != free`
abbrev is_other : Option Value → ℕ → Bool
is_other none free = false
is_other (some v) free = elim (amount v) [ none ↦ true | some n ↦ not (n == free) ]

abbrev used_of : Option Value → ℕ → ℕ → Option ℕ → Option ℕ
used_of freemem total free none = none
used_of freemem total free (some used) =
    if not (used == total - free) then none else if is_other freemem free then none else some used

abbrev consistent : Payload → Option ℕ → Option ℕ → Option ℕ → Option ℕ
consistent p none total free = none
consistent p (some maximum) none free = none
consistent p (some maximum) (some total) none = none
consistent p (some maximum) (some total) (some free) =
    if maximum == 0
    then none
    else if ltb total free
    then none
    else used_of p.freemem total free (amount_of p.mem)

abbrev of_info : Payload → Info → Option ℕ
of_info p no_info = none
of_info p (mapping b) =
    consistent p (amount_of b.max_mem) (amount_of b.total_mem) (amount_of b.free_mem)
of_info p other_info = none

unfoldable pub vm_guest_memory : Payload → Option ℕ
unfolding amount_of
vm_guest_memory p = if not p.is_running then none else of_info p p.ballooninfo

module _ (p : Payload) (total free : ℕ) where
  used_lem :
      (o : Option ℕ) (n : ℕ)
      → ltb total free ≡ false
      → used_of p.freemem total free o ≡ some n
      → (n + free ≡ total) × (o ≡ some n)
  used_lem none n t h = cc
  used_lem (some u) n t h = (ground arith, ground arith)

-- Guest memory is shown only where it is the `mem` of the payload and, with the free memory of the
-- balloon data, makes up the total.
consistent_lem :
    (p : Payload) (x t f : Option ℕ) (n : ℕ)
    → consistent p x t f ≡ some n
    → (total free : ℕ) × (t ≡ some total)
      × (f ≡ some free)
      × (n + free ≡ total)
      × (amount_of p.mem ≡ some n)
consistent_lem p none t f n h = cc
consistent_lem p (some x) none f n h = cc
consistent_lem p (some x) (some t) none n h = cc
consistent_lem p (some x) (some t) (some f) n h =
    let (sum, same) = used_lem p t f (amount_of p.mem) n (ground arith) (ground arith) in
    (t, f, refl, refl, sum, same)

-- Where the payload suggests that `mem` is the guest's and there is no `memhost`, no host memory is shown.
vm_host_memory-none :
    (p : Payload) → is_in p.memhost ≡ false → guest_evidence p ≡ true → vm_host_memory p ≡ none
unfolding vm_host_memory
vm_host_memory-none p m g = rw (m, g) refl

of_info_lem :
    (p : Payload) (i : Info) (n : ℕ)
    → of_info p i ≡ some n
    → (b : Balloon) × (total free : ℕ) × (i ≡ mapping b)
      × (amount_of b.total_mem ≡ some total)
      × (amount_of b.free_mem ≡ some free)
      × (n + free ≡ total)
      × (amount_of p.mem ≡ some n)
of_info_lem p no_info n h = cc
of_info_lem p (mapping b) n h =
    let (total, free, t, f, sum, same) =
      consistent_lem p (amount_of b.max_mem) (amount_of b.total_mem) (amount_of b.free_mem) n h in
    (b, total, free, refl, t, f, sum, same)
of_info_lem p other_info n h = cc

-- A guest memory that is shown is the `mem` of a running machine, and makes up the total of its balloon
-- data with the free memory.
vm_guest_memory_lem :
    (p : Payload) (n : ℕ)
    → vm_guest_memory p ≡ some n
    → (p.is_running ≡ true)
      × (b : Balloon) × (total free : ℕ) × (p.ballooninfo ≡ mapping b)
      × (amount_of b.total_mem ≡ some total)
      × (amount_of b.free_mem ≡ some free)
      × (n + free ≡ total)
      × (amount_of p.mem ≡ some n)
unfolding vm_guest_memory
vm_guest_memory_lem p n h =
    let (b, total, free, i, t, f, sum, same) = of_info_lem p p.ballooninfo n (ground arith) in
    (ground arith, b, total, free, i, t, f, sum, same)
