-- ===== src/Parser/Autoremove.antt =====
-- `parse_autoremove_simulation` (custom_components/hubinet_ops/packages/parser.py): the plan of a
-- cleanup.
use hubinet_ops_next.Prelude.{
  ℕ, ◌*◌, not, ◌||◌, Option, none, some, List, [], ◌∷◌, ◌++◌, Text, codes, starts_with, ◌==◌, ltb,
  if◌then◌else◌, length, is_empty, is_some, any,
}
use hubinet_ops_next.Prelude.Results.{ok, err}
use hubinet_ops_next.Models.{ScanFailure, PackageId, RemovablePackage}
use hubinet_ops_next.Process.Run.{id_eq, version_of}
use hubinet_ops_next.Parser.Lines.{Tables, split_lines, strip, utf8_length}
use hubinet_ops_next.Parser.Match.{match_remv, Summary, match_summary, is_bad_count}
use hubinet_ops_next.Parser.Order.{sorted}
use hubinet_ops_next.Parser.Fault.{parse_error, malformed, Parsed, ◌>>=◌, ◌>>◌, refuse_if}
use hubinet_ops_next.Parser.Evidence.{
  parse_installed_inventory, parse_native_architecture, split_qualified_name, resolve_architecture,
  changed,
}
use hubinet_ops_next.Parser.Apt.{same_version}

abbrev pub removable_id : RemovablePackage → PackageId
removable_id p = record { name = p.name; architecture = p.architecture }

-- The local variables of the loop; the identities that were seen are those of the packages.
pub record Removal : Type 0 where
  pub packages : List RemovablePackage
  pub summary : Option Summary

abbrev pub no_removal : Removal
no_removal = record { packages = []; summary = none }

-- `ParsedAutoremoveSimulation`
pub record AutoremoveSimulation : Type 0 where
  pub packages : List RemovablePackage
  pub not_upgraded_count : ℕ

module _ (t : Tables) (native : Text) (inv : List (PackageId × Text)) where
  -- A removal, over the match of its line.
  unfoldable pub remv_line : Removal → Option (Text × Text) → Parsed Removal
  unfolding split_qualified_name resolve_architecture version_of
  remv_line r none = err (malformed "APT autoremove simulation contains an unparseable removal")
  remv_line r (some (raw, installed)) = do
    let (name, qualified) = split_qualified_name raw
    architecture ← resolve_architecture name qualified native inv
    let i : PackageId = record { name = name; architecture = architecture }
    refuse_if (any (λ (p : RemovablePackage). id_eq i (removable_id p)) r.packages)
        (malformed "APT autoremove simulation contains a duplicate removal")
    refuse_if (not (same_version (version_of i inv) installed))
        (changed "APT removal version contradicts the installed inventory")
    ok (record r {
      packages =
          r.packages
          ++ record { name = name; architecture = architecture; installed_version = installed }
            ∷ [];
    })

  unfoldable pub removal_summary : Removal → Option Summary → Parsed Removal
  removal_summary r none = ok r
  removal_summary r (some s) =
      if is_some r.summary
      then err (malformed "APT autoremove simulation contains duplicate summaries")
      else ok (record r { summary = some s })

  -- A stripped line.
  unfoldable pub removal_line : Removal → Text → Parsed Removal
  unfolding remv_line removal_summary match_remv match_summary is_bad_count
  removal_line r line =
      if is_empty line
      then ok r
      else if starts_with (codes "Purg ") line
          || (starts_with (codes "Inst ") line || starts_with (codes "Conf ") line)
      then err (malformed "APT autoremove simulation contains a forbidden action")
      else if starts_with (codes "Remv ") line
      then remv_line r (match_remv t line)
      else if is_bad_count t line
      then err (parse_error ScanFailure.dpkg_unfinished (codes "APT reports unfinished dpkg state"))
      else removal_summary r (match_summary t line)

  unfoldable pub removal_lines : Removal → List Text → Parsed Removal
  unfolding removal_line
  removal_lines r [] = ok r
  removal_lines r (l ∷ ls) = removal_line r (strip t l) >>= λ next. removal_lines next ls

unfoldable pub removal_result : Removal → Option Summary → Parsed AutoremoveSimulation
unfolding sorted
removal_result r none = err (malformed "APT autoremove simulation has no exact plan summary")
removal_result r (some s) = do
  refuse_if (not (s.upgraded == 0) || not (s.newly_installed == 0))
      (malformed "APT autoremove simulation is not a removal-only plan")
  refuse_if (not (s.removed == length r.packages))
      (malformed "APT autoremove summary does not match its removals")
  ok (record { packages = sorted removable_id r.packages; not_upgraded_count = s.not_upgraded })

-- `parse_autoremove_simulation`, of texts
unfoldable pub parse_autoremove_simulation :
    Tables → Text → Text → Text → Parsed AutoremoveSimulation
unfolding removal_lines removal_result parse_native_architecture parse_installed_inventory
    split_lines utf8_length
parse_autoremove_simulation t text native_architecture installed_inventory = do
  refuse_if (ltb (8 * 1024 * 1024) (utf8_length text))
      (malformed "APT autoremove simulation output is missing or oversized")
  native ← parse_native_architecture t native_architecture
  inv ← parse_installed_inventory installed_inventory
  refuse_if (not (is_empty inv.unfinished))
      (parse_error ScanFailure.dpkg_unfinished (codes "dpkg reports unfinished package state"))
  r ← removal_lines t native inv.versions no_removal (split_lines text)
  removal_result r r.summary
