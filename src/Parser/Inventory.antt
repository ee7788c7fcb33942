-- ===== src/Parser/Inventory.antt =====
-- What `parse_installed_inventory` (custom_components/hubinet_ops/packages/parser.py) lists.
use hubinet_ops_next.Prelude.{
  ◌≡◌, refl, inl, inr, true, false, not, ◌||◌, Option, none, some, List, [], ◌∷◌, ◌++◌, arith, Text,
  is_empty, any, All, length, ltb, if◌then◌else◌, Bool-cases,
}
use hubinet_ops_next.Prelude.Results.{ok, err}
use hubinet_ops_next.Models.{PackageId}
use hubinet_ops_next.Process.Run.{id_eq}
use hubinet_ops_next.Parser.Match.{is_architecture}
use hubinet_ops_next.Parser.Order.{sorted, IsDistinct, sorted-All, append-All, append-IsDistinct}
use hubinet_ops_next.Parser.Fault.{after, past, same_ok, malformed}
use hubinet_ops_next.Parser.Evidence.{
  Status, installed, not_installed, config_files, half_installed, unpacked, half_configured,
  triggers_awaited, triggers_pending, status_of, is_unfinished, Inventory, no_inventory,
  record_status, inventory_fields, inventory_row, inventory_lines, bad_row,
  parse_installed_inventory,
}

-- An installed package: its architecture is one and its version is not empty.
abbrev pub IsInstalled : PackageId × Text → Type 0
IsInstalled (i, v) = (is_architecture i.architecture ≡ true) × (is_empty v ≡ false)

abbrev pub HasUnfinished : PackageId × Status → Type 0
HasUnfinished (i, s) = is_unfinished s ≡ true

-- An identity that was not seen is no installed package.
abbrev IsSeen : Inventory → Type 0
IsSeen inv =
    (i : PackageId)
    → any (id_eq i) inv.seen ≡ false
    → any (λ (x : PackageId × Text). id_eq i x.0) inv.versions ≡ false

abbrev pub IsListing : Inventory → Type 0
IsListing inv =
    (All IsInstalled inv.versions × IsDistinct (λ (x : PackageId × Text). x.0) inv.versions)
    × All HasUnfinished inv.unfinished

abbrev IsRecord : Inventory → Type 0
IsRecord inv = IsListing inv × IsSeen inv

any-append :
    (i : PackageId) (l : List (PackageId × Text)) (x : PackageId × Text)
    → any (λ (y : PackageId × Text). id_eq i y.0) (l ++ x ∷ [])
      ≡ (any (λ (y : PackageId × Text). id_eq i y.0) l || id_eq i x.0)
any-append i [] x = ground arith
any-append i (y ∷ l) x = ground (arith, any-append i l x)

-- An identity with an unfinished state, and one that is only seen.
with_unfinished :
    (inv : Inventory) (i : PackageId) (s : Status)
    → IsRecord inv
    → is_unfinished s ≡ true
    → IsRecord (record inv { unfinished = inv.unfinished ++ (i, s) ∷ []; seen = i ∷ inv.seen })
with_unfinished inv i s ((listed, states), seen) e = (
  (listed, append-All (λ x. x.0) HasUnfinished inv.unfinished (i, s) states e),
  λ j fresh. seen j (ground arith),
)

with_seen :
    (inv : Inventory) (i : PackageId) → IsRecord inv → IsRecord (record inv { seen = i ∷ inv.seen })
with_seen inv i (listing, seen) = (listing, λ j fresh. seen j (ground arith))

record_status-IsRecord :
    (inv : Inventory) (i : PackageId) (v : Text) (s : Status) (inv2 : Inventory)
    → IsRecord inv
    → any (id_eq i) inv.seen ≡ false
    → is_architecture i.architecture ≡ true
    → record_status inv i v s ≡ ok inv2
    → IsRecord inv2
unfolding record_status
record_status-IsRecord inv i v installed inv2 (((valid, distinct), states), seen) new good =
    elim (Bool-cases (is_empty v)) [
      | inl e ↦ rw e λ h. cc
      | inr e ↦ rw e λ h. same_ok IsRecord h (
        (
          (
            append-All (λ x. x.0) IsInstalled inv.versions (i, v) valid (good, e),
            append-IsDistinct (λ x. x.0) inv.versions (i, v) distinct (seen i new),
          ),
          states,
        ),
        λ j fresh. ground (arith, any-append j inv.versions (i, v), seen j),
      )
    ]
record_status-IsRecord inv i v not_installed inv2 k new good =
    λ h. same_ok IsRecord h (with_seen inv i k)
record_status-IsRecord inv i v config_files inv2 k new good =
    λ h. same_ok IsRecord h (with_seen inv i k)
record_status-IsRecord inv i v half_installed inv2 k new good =
    λ h. same_ok IsRecord h (with_unfinished inv i half_installed k refl)
record_status-IsRecord inv i v unpacked inv2 k new good =
    λ h. same_ok IsRecord h (with_unfinished inv i unpacked k refl)
record_status-IsRecord inv i v half_configured inv2 k new good =
    λ h. same_ok IsRecord h (with_unfinished inv i half_configured k refl)
record_status-IsRecord inv i v triggers_awaited inv2 k new good =
    λ h. same_ok IsRecord h (with_unfinished inv i triggers_awaited k refl)
record_status-IsRecord inv i v triggers_pending inv2 k new good =
    λ h. same_ok IsRecord h (with_unfinished inv i triggers_pending k refl)

-- The fields of a row that is no `not-installed` one.
checked :
    (inv : Inventory) (name architecture version : Text) (s : Status) (inv2 : Inventory)
    → IsRecord inv
    → (if is_empty name
          || ltb 300 (length name)
          || (ltb 500 (length version) || not (is_architecture architecture))
        then err bad_row
        else if any (id_eq (record { name = name; architecture = architecture })) inv.seen
        then err (malformed "installed package inventory contains a duplicate identity")
        else record_status inv (record { name = name; architecture = architecture }) version s)
      ≡ ok inv2
    → IsRecord inv2
checked inv name architecture version s inv2 k =
    elim (Bool-cases (
      is_empty name
      || ltb 300 (length name)
      || (ltb 500 (length version) || not (is_architecture architecture)))) [
        | inl e ↦ rw e λ h. cc
        | inr e ↦
            elim (Bool-cases
              (any (id_eq (record { name = name; architecture = architecture })) inv.seen)) [
                | inl f ↦ rw (e, f) λ h. cc
                | inr f ↦
                    rw (e, f)
                      (record_status-IsRecord inv
                        (record { name = name; architecture = architecture }) version s inv2 k f
                        (ground arith))
              ]
      ]

inventory_fields-IsRecord :
    (inv : Inventory) (name architecture version : Text) (o : Option Status) (inv2 : Inventory)
    → IsRecord inv
    → inventory_fields inv name architecture version o ≡ ok inv2
    → IsRecord inv2
unfolding inventory_fields
inventory_fields-IsRecord inv n a v none inv2 k = λ h. cc
inventory_fields-IsRecord inv n a v (some not_installed) inv2 k = λ h. same_ok IsRecord h k
inventory_fields-IsRecord inv n a v (some s) inv2 k = checked inv n a v s inv2 k

inventory_row-IsRecord :
    (inv : Inventory) (fields : List Text) (inv2 : Inventory)
    → IsRecord inv
    → inventory_row inv fields ≡ ok inv2
    → IsRecord inv2
inventory_row-IsRecord inv (n ∷ a ∷ v ∷ s ∷ []) inv2 k h =
    inventory_fields-IsRecord inv n a v (status_of s) inv2 k h
inventory_row-IsRecord inv _ inv2 k h = cc

inventory_lines-IsRecord :
    (inv : Inventory) (ls : List Text) (inv2 : Inventory)
    → IsRecord inv
    → inventory_lines inv ls ≡ ok inv2
    → IsRecord inv2
unfolding inventory_lines
inventory_lines-IsRecord inv [] inv2 k = λ h. same_ok IsRecord h k
inventory_lines-IsRecord inv (l ∷ ls) inv2 k = elim (Bool-cases (is_empty l)) [
  | inl e ↦ rw e λ h.
      after h λ inv3 first h1. inventory_lines-IsRecord inv3 ls inv2 (same_ok IsRecord first k) h1
  | inr e ↦ rw e λ h. after h λ inv3 first h1.
      inventory_lines-IsRecord inv3 ls inv2 (inventory_row-IsRecord inv _ inv3 k first) h1
]

sort_states :
    (inv : Inventory)
    → IsListing inv
    → IsListing
        (record inv { unfinished = sorted (λ (x : PackageId × Status). x.0) inv.unfinished })
sort_states inv (listed, states) =
    (listed, sorted-All (λ x. x.0) HasUnfinished inv.unfinished states)

-- When an inventory is read, no two of its installed packages have the same name and architecture,
-- each has a version that is not empty and an architecture that is one, and every package that it
-- names unfinished has one of the unfinished states.
pub parse_installed_inventory-IsListing :
    (inventory : Text) (inv : Inventory)
    → parse_installed_inventory inventory ≡ ok inv
    → IsListing inv
unfolding parse_installed_inventory
parse_installed_inventory-IsListing inventory inv h = past _ _ _ h λ bounded h1.
    after h1 λ found lines h2. same_ok IsListing h2 (
      sort_states found
        (inventory_lines-IsRecord no_inventory _ found (((tt, tt), tt), λ i fresh. refl) lines).0)
