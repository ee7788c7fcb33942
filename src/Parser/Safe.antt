-- ===== src/Parser/Safe.antt =====
-- What the plan of a cleanup rests on (custom_components/hubinet_ops/packages/parser.py).
use hubinet_ops_next.Prelude.{
  ◌≡◌, inl, inr, Bool-cases, is_some, ◌||◌, Option, none, some, List, [], ◌∷◌, Text, codes,
  starts_with, is_empty, All,
}
use hubinet_ops_next.Prelude.Results.{ok}
use hubinet_ops_next.Models.{PackageId, RemovablePackage}
use hubinet_ops_next.Process.Run.{version_of}
use hubinet_ops_next.Parser.Lines.{Tables, strip}
use hubinet_ops_next.Parser.Match.{Summary, match_summary, match_remv, is_bad_count}
use hubinet_ops_next.Parser.Order.{
  IsIncreasing, IsDistinct, sorted-All, sorted-IsIncreasing, append-All, append-IsDistinct,
}
use hubinet_ops_next.Parser.Fault.{after, past, same_ok}
use hubinet_ops_next.Parser.Evidence.{Inventory, parse_installed_inventory}
use hubinet_ops_next.Parser.Autoremove.{
  removable_id, Removal, no_removal, AutoremoveSimulation, remv_line, removal_summary, removal_line,
  removal_lines, removal_result, parse_autoremove_simulation,
}
use hubinet_ops_next.Parser.Sound.{same_version_lem, is_empty_lem}

-- What the plan removes is what dpkg reports installed.
abbrev pub IsPresent : List (PackageId × Text) → RemovablePackage → Type 0
IsPresent versions p = version_of (removable_id p) versions ≡ some p.installed_version

module _ (t : Tables) (native : Text) (versions : List (PackageId × Text)) where
  abbrev IsCleanup : Removal → Type 0
  IsCleanup r = All (IsPresent versions) r.packages × IsDistinct removable_id r.packages

  remv_line-IsCleanup :
      (r : Removal) (m : Option (Text × Text)) (s : Removal)
      → IsCleanup r
      → remv_line t native versions r m ≡ ok s
      → IsCleanup s
  unfolding remv_line
  remv_line-IsCleanup r none s k h = cc
  remv_line-IsCleanup r (some (raw, installed)) s (present, distinct) h =
      after h λ architecture resolved h1. past _ _ _ h1 λ new h2. past _ _ _ h2 λ same h3.
        same_ok IsCleanup h3 (
          append-All removable_id (IsPresent versions) r.packages _ present
              (same_version_lem _ installed same),
          append-IsDistinct removable_id r.packages _ distinct new,
        )

  removal_summary-IsCleanup :
      (r : Removal) (m : Option Summary) (s : Removal)
      → IsCleanup r
      → removal_summary t native versions r m ≡ ok s
      → IsCleanup s
  unfolding removal_summary
  removal_summary-IsCleanup r none s k = λ h. same_ok IsCleanup h k
  removal_summary-IsCleanup r (some m) s k = elim (Bool-cases (is_some r.summary)) [
    | inl e ↦ rw e λ h. cc
    | inr e ↦ rw e λ h. same_ok IsCleanup h k
  ]

  removal_line-IsCleanup :
      (r : Removal) (line : Text) (s : Removal)
      → IsCleanup r
      → removal_line t native versions r line ≡ ok s
      → IsCleanup s
  unfolding removal_line
  removal_line-IsCleanup r line s k = elim (Bool-cases (is_empty line)) [
    | inl e1 ↦ rw e1 λ h. same_ok IsCleanup h k
    | inr e1 ↦
        elim (Bool-cases (
          starts_with (codes "Purg ") line
          || (starts_with (codes "Inst ") line || starts_with (codes "Conf ") line))) [
            | inl e2 ↦ rw (e1, e2) λ h. cc
            | inr e2 ↦ elim (Bool-cases (starts_with (codes "Remv ") line)) [
              | inl e3 ↦ rw (e1, e2, e3) (remv_line-IsCleanup r (match_remv t line) s k)
              | inr e3 ↦ elim (Bool-cases (is_bad_count t line)) [
                | inl e4 ↦ rw (e1, e2, e3, e4) λ h. cc
                | inr e4 ↦
                    rw (e1, e2, e3, e4) (removal_summary-IsCleanup r (match_summary t line) s k)
              ]
            ]
          ]
  ]

  removal_lines-IsCleanup :
      (r : Removal) (ls : List Text) (s : Removal)
      → IsCleanup r
      → removal_lines t native versions r ls ≡ ok s
      → IsCleanup s
  unfolding removal_lines
  removal_lines-IsCleanup r [] s k h = same_ok IsCleanup h k
  removal_lines-IsCleanup r (l ∷ ls) s k h = after h λ next first h1.
      removal_lines-IsCleanup next ls s (removal_line-IsCleanup r (strip t l) next k first) h1

  abbrev IsPlan : List RemovablePackage → Type 0
  IsPlan ps = All (IsPresent versions) ps × IsIncreasing removable_id ps

  removal_result-IsPlan :
      (r : Removal) (m : Option Summary) (s : AutoremoveSimulation)
      → IsCleanup r
      → removal_result r m ≡ ok s
      → IsPlan s.packages
  unfolding removal_result
  removal_result-IsPlan r none s k h = cc
  removal_result-IsPlan r (some m) s (present, distinct) h = past _ _ _ h λ only h1.
      past _ _ _ h1 λ matching h2.
        same_ok (λ s. IsPlan s.packages) h2
          (
            sorted-All removable_id (IsPresent versions) r.packages present,
            sorted-IsIncreasing removable_id r.packages distinct,
          )

-- When the plan of a cleanup is read, the inventory was read with it and has no package in an
-- unfinished state; every package that the plan removes is installed in that inventory with the
-- version that the plan says; and the packages come in strictly increasing order of name and
-- architecture, so none is named twice.
pub parse_autoremove_simulation-IsPlan :
    (t : Tables) (text native inventory : Text) (s : AutoremoveSimulation)
    → parse_autoremove_simulation t text native inventory ≡ ok s
    → (inv : Inventory) × (parse_installed_inventory inventory ≡ ok inv)
      × (inv.unfinished ≡ [])
      × (All (IsPresent inv.versions) s.packages × IsIncreasing removable_id s.packages)
unfolding parse_autoremove_simulation
parse_autoremove_simulation-IsPlan t text native inventory s h = past _ _ _ h λ bounded h1.
    after h1 λ architecture resolved h2. after h2 λ inv listed h3. past _ _ _ h3 λ finished h4.
      after h4 λ r lines h5. (
        inv,
        listed,
        is_empty_lem inv.unfinished finished,
        removal_result-IsPlan t architecture inv.versions r r.summary s
            (removal_lines-IsCleanup t architecture inv.versions no_removal _ r (tt, tt) lines) h5,
      )
