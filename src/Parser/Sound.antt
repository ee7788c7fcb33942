-- ===== src/Parser/Sound.antt =====
-- What the plan of an upgrade rests on (custom_components/hubinet_ops/packages/parser.py).
use hubinet_ops_next.Prelude.{
  ◌≡◌, refl, ap, suc, false, not, Option, none, some, List, [], ◌∷◌, arith, Text, text_eq_iff,
  is_empty, any, All, length,
}
use hubinet_ops_next.Prelude.Results.{ok}
use hubinet_ops_next.Models.{PackageId, PendingPackage}
use hubinet_ops_next.Process.Run.{id_eq, version_of}
use hubinet_ops_next.Parser.Lines.{Tables}
use hubinet_ops_next.Parser.Match.{Summary}
use hubinet_ops_next.Parser.Order.{
  sorted, IsIncreasing, IsDistinct, has_key, sorted-All, sorted-IsIncreasing,
}
use hubinet_ops_next.Parser.Fault.{after, past, same_ok}
use hubinet_ops_next.Parser.Evidence.{Inventory, parse_installed_inventory}
use hubinet_ops_next.Parser.Apt.{
  same_version, pending_id, Change, Plan, Approved, package_of, apt_packages, package_rows,
  AptSimulation, apt_result, parse_apt_simulation,
}

-- What dpkg reports installed is what the plan upgrades from.
abbrev pub IsBacked : List (PackageId × Text) → PendingPackage → Type 0
IsBacked versions p = version_of (pending_id p) versions ≡ some p.installed_version

pub same_version_lem : (o : Option Text) (v : Text) → not (same_version o v) ≡ false → o ≡ some v
same_version_lem none v h = ground arith
same_version_lem (some w) v h = ap some ((text_eq_iff w v).0 (ground arith))

pub is_empty_lem : {A : Type 0} (l : List A) → not (is_empty l) ≡ false → l ≡ []
is_empty_lem [] h = refl
is_empty_lem (x ∷ l) h = ground arith

module _ (t : Tables) (native : Text) (versions : List (PackageId × Text)) where
  package_of_lem :
      (seen : List PackageId) (c : Change) (p : PendingPackage)
      → package_of t native versions seen c ≡ ok p
      → IsBacked versions p × (any (id_eq (pending_id p)) seen ≡ false)
  unfolding package_of
  package_of_lem seen c p h = after h λ architecture resolved h1. past _ _ _ h1 λ installed h2.
      past _ _ _ h2 λ candidate h3. past _ _ _ h3 λ fresh h4.
        same_ok (λ q. IsBacked versions q × (any (id_eq (pending_id q)) seen ≡ false)) h4
          (same_version_lem _ c.installed installed, fresh)

  -- The packages are backed, none has an identity that was seen, and no two the same one.
  abbrev IsFresh : List PackageId → PendingPackage → Type 0
  IsFresh seen p = IsBacked versions p × (any (id_eq (pending_id p)) seen ≡ false)

  abbrev IsPlan : List PackageId → List PendingPackage → Type 0
  IsPlan seen ps = All (IsFresh seen) ps × IsDistinct pending_id ps

  IsFresh-split :
      (i : PackageId) (seen : List PackageId) (ps : List PendingPackage)
      → All (IsFresh (i ∷ seen)) ps
      → All (IsFresh seen) ps × (has_key pending_id i ps ≡ false)
  IsFresh-split i seen [] h = (tt, refl)
  IsFresh-split i seen (p ∷ ps) ((backed, fresh), h) =
      let (others, none_has) = IsFresh-split i seen ps h in
      (((backed, ground arith), others), ground arith)

  IsPlan-more :
      (seen : List PackageId) (p : PendingPackage) (ps : List PendingPackage)
      → IsFresh seen p
      → IsPlan (pending_id p ∷ seen) ps
      → IsPlan seen (p ∷ ps)
  IsPlan-more seen p ps first (fresh, distinct) =
      let (others, none_has) = IsFresh-split (pending_id p) seen ps fresh in
      ((first, others), (none_has, distinct))

  apt_packages-IsPlan :
      (seen : List PackageId) (cs : List Change) (as' : List Approved)
      → apt_packages t native versions seen cs ≡ ok as'
      → IsPlan seen (package_rows as') × (length as' ≡ length cs)
  unfolding apt_packages
  apt_packages-IsPlan seen [] as' h =
      same_ok (λ l. IsPlan seen (package_rows l) × (length l ≡ 0)) h ((tt, tt), refl)
  apt_packages-IsPlan seen (c ∷ cs) as' h = after h λ p first h1. after h1 λ rest others h2.
      same_ok (λ l. IsPlan seen (package_rows l) × (length l ≡ suc (length cs))) h2
        (
          IsPlan-more seen p (package_rows rest) (package_of_lem seen c p first)
              (apt_packages-IsPlan (pending_id p ∷ seen) cs rest others).0,
          ap suc (apt_packages-IsPlan (pending_id p ∷ seen) cs rest others).1,
        )

  abbrev IsUpgrade : List PendingPackage → Type 0
  IsUpgrade ps = All (IsBacked versions) ps × IsIncreasing pending_id ps

  backed : (ps : List PendingPackage) → All (IsFresh []) ps → All (IsBacked versions) ps
  backed [] h = tt
  backed (p ∷ ps) ((first, fresh), h) = (first, backed ps h)

  plan_sorted : (ps : List PendingPackage) → IsPlan [] ps → IsUpgrade (sorted pending_id ps)
  plan_sorted ps (fresh, distinct) = (
    sorted-All pending_id (IsBacked versions) ps (backed ps fresh),
    sorted-IsIncreasing pending_id ps distinct,
  )

apt_result-IsUpgrade :
    (t : Tables) (native : Text) (inv : Inventory) (p : Plan) (s : Option Summary)
    (r : AptSimulation)
    → apt_result t native inv p s ≡ ok r
    → IsUpgrade t native inv.versions r.packages
unfolding apt_result
apt_result-IsUpgrade t native inv p none r h = cc
apt_result-IsUpgrade t native inv p (some s) r h = past _ _ _ h λ only h1.
    past _ _ _ h1 λ matching h2. after h2 λ approved listed h3. after h3 λ checked configured h4.
      same_ok (λ r. IsUpgrade t native inv.versions r.packages) h4
        (plan_sorted t native inv.versions (package_rows approved)
          (apt_packages-IsPlan t native inv.versions [] p.changes approved listed).0)

-- When the plan of an upgrade is read, the inventory was read with it and has no package in an
-- unfinished state; every package of the plan is installed in that inventory with the version and
-- architecture that the plan says it upgrades from; and the packages come in strictly increasing
-- order of name and architecture, so none is named twice.
pub parse_apt_simulation-IsUpgrade :
    (t : Tables) (text native inventory : Text) (r : AptSimulation)
    → parse_apt_simulation t text native inventory ≡ ok r
    → (inv : Inventory) × (parse_installed_inventory inventory ≡ ok inv)
      × (inv.unfinished ≡ [])
      × (All (IsBacked inv.versions) r.packages × IsIncreasing pending_id r.packages)
unfolding parse_apt_simulation
parse_apt_simulation-IsUpgrade t text native inventory r h = past _ _ _ h λ bounded h1.
    after h1 λ architecture resolved h2. after h2 λ inv listed h3. past _ _ _ h3 λ finished h4.
      after h4 λ p lines h5. (
        inv,
        listed,
        is_empty_lem inv.unfinished finished,
        apt_result-IsUpgrade t architecture inv p p.summary r h5,
      )
