-- ===== src/Parser/Apt.antt =====
-- `parse_apt_simulation` (custom_components/hubinet_ops/packages/parser.py): the plan of an upgrade.
use hubinet_ops_next.Prelude.{
  ℕ, ◌*◌, Bool, false, not, ◌&&◌, ◌||◌, Option, none, some, List, [], ◌∷◌, ◌++◌, Text, codes,
  text_eq, starts_with, ◌==◌, ltb, if◌then◌else◌, length, is_empty, is_some, any,
}
use hubinet_ops_next.Prelude.Results.{ok, err}
use hubinet_ops_next.Models.{ScanFailure, PackageId, PendingPackage}
use hubinet_ops_next.Process.Run.{id_eq, version_of}
use hubinet_ops_next.Parser.Lines.{Tables, split_lines, strip, utf8_length}
use hubinet_ops_next.Parser.Match.{
  Inst, match_inst, match_conf, Summary, match_summary, is_bad_count,
}
use hubinet_ops_next.Parser.Order.{sorted}
use hubinet_ops_next.Parser.Fault.{parse_error, malformed, Parsed, ◌>>=◌, ◌>>◌, refuse_if}
use hubinet_ops_next.Parser.Candidate.{candidate_description, security_of}
use hubinet_ops_next.Parser.Evidence.{
  Inventory, parse_installed_inventory, parse_native_architecture, split_qualified_name,
  resolve_architecture, changed,
}

-- One planned change: a tuple of the source's `changes`.
pub record Change : Type 0 where
  pub raw_name : Text
  pub name : Text
  pub qualified : Option Text
  pub architecture : Text
  pub installed : Text
  pub candidate : Text
  pub origin : Option Text

-- A tuple of `pending_conf`.
pub record Configure : Type 0 where
  pub raw_name : Text
  pub candidate : Text
  pub architecture : Text

-- The local variables of the loop over the lines; `seen_inst` are the raw names of the changes,
-- `seen_conf` those of the configure actions.
pub record Plan : Type 0 where
  pub changes : List Change
  pub seen_inst : List Text
  pub seen_conf : List Text
  pub pending_conf : List Configure
  pub summary : Option Summary

abbrev pub no_plan : Plan
no_plan = record { changes = []; seen_inst = []; seen_conf = []; pending_conf = []; summary = none }

-- A version that is the one of the inventory.
abbrev pub same_version : Option Text → Text → Bool
same_version none v = false
same_version (some w) v = text_eq w v

abbrev pub pending_id : PendingPackage → PackageId
pending_id p = record { name = p.name; architecture = p.architecture }

-- An accepted change: a key and the value of the source's `approved`, with the package.
pub record Approved : Type 0 where
  pub raw_name : Text
  pub package_row : PendingPackage

abbrev contradicts : Option Text → Text → Bool
contradicts none a = false
contradicts (some q) a = not (text_eq q a)

module _ (t : Tables) where
  unfoldable pub inst_line : Plan → Option Inst → Parsed Plan
  unfolding candidate_description split_qualified_name
  inst_line p none = err (malformed "APT simulation contains an unparseable change")
  inst_line p (some i) =
      if any (text_eq i.name) p.seen_inst
      then err (malformed "APT simulation contains a duplicate change")
      else (do
        (origin, architecture) ← candidate_description t i.relstr
        let (name, qualified) = split_qualified_name i.name
        refuse_if (contradicts qualified architecture)
            (malformed "APT package name architecture contradicts its candidate")
        ok (record p {
          seen_inst = i.name ∷ p.seen_inst;
          changes =
              p.changes
              ++ record {
                raw_name = i.name;
                name = name;
                qualified = qualified;
                architecture = architecture;
                installed = i.installed;
                candidate = i.candidate;
                origin = origin;
              }
                ∷ [];
        }))

  unfoldable pub conf_line : Plan → Option (Text × Text × Text) → Parsed Plan
  unfolding candidate_description split_qualified_name
  conf_line p none = err (malformed "APT simulation contains an unparseable configure action")
  conf_line p (some (raw, candidate, relstr)) = do
    (origin, architecture) ← candidate_description t relstr
    refuse_if (contradicts (split_qualified_name raw).1 architecture)
        (malformed "APT configure architecture is contradictory")
    refuse_if (any (text_eq raw) p.seen_conf)
        (malformed "APT simulation contains a duplicate configure action")
    ok (record p {
      seen_conf = raw ∷ p.seen_conf;
      pending_conf =
          p.pending_conf
          ++ record { raw_name = raw; candidate = candidate; architecture = architecture } ∷ [];
    })

  unfoldable pub summary_line : Plan → Option Summary → Parsed Plan
  summary_line p none = ok p
  summary_line p (some s) =
      if is_some p.summary
      then err (malformed "APT simulation contains duplicate summaries")
      else ok (record p { summary = some s })

  -- A stripped line.
  unfoldable pub apt_line : Plan → Text → Parsed Plan
  unfolding inst_line conf_line summary_line match_inst match_conf match_summary is_bad_count
  apt_line p line =
      if is_empty line
      then ok p
      else if starts_with (codes "Remv ") line || starts_with (codes "Purg ") line
      then err (malformed "APT simulation unexpectedly planned a removal")
      else if starts_with (codes "Inst ") line
      then inst_line p (match_inst t line)
      else if starts_with (codes "Conf ") line
      then conf_line p (match_conf t line)
      else if is_bad_count t line
      then err (parse_error ScanFailure.dpkg_unfinished (codes "APT reports unfinished dpkg state"))
      else summary_line p (match_summary t line)

  unfoldable pub apt_lines : Plan → List Text → Parsed Plan
  unfolding apt_line
  apt_lines p [] = ok p
  apt_lines p (l ∷ ls) = apt_line p (strip t l) >>= λ next. apt_lines next ls

  -- The packages of the changes, against what dpkg has installed afterwards, and the identities
  -- that were seen.
  unfoldable pub package_of :
      Text → List (PackageId × Text) → List PackageId → Change → Parsed PendingPackage
  unfolding resolve_architecture security_of version_of
  package_of native inv seen c = do
    architecture ← resolve_architecture c.name c.qualified native inv
    let i : PackageId = record { name = c.name; architecture = architecture }
    refuse_if (not (same_version (version_of i inv) c.installed))
        (changed "APT installed version contradicts the later dpkg inventory")
    refuse_if (not (text_eq architecture c.architecture))
        (changed "APT candidate architecture contradicts the later dpkg inventory")
    refuse_if (any (id_eq i) seen) (malformed "APT simulation contains a duplicate identity")
    ok (record {
      name = c.name;
      architecture = architecture;
      installed_version = c.installed;
      candidate_version = c.candidate;
      origin = c.origin;
      security = security_of t c.origin;
    })

  -- The loop over the changes.
  unfoldable pub apt_packages :
      Text → List (PackageId × Text) → List PackageId → List Change → Parsed (List Approved)
  unfolding package_of
  apt_packages native inv seen [] = ok []
  apt_packages native inv seen (c ∷ cs) = do
    p ← package_of native inv seen c
    rest ← apt_packages native inv (pending_id p ∷ seen) cs
    ok (record { raw_name = c.raw_name; package_row = p } ∷ rest)

-- `approved.get((raw_name, candidate_version))`: a later entry replaces an earlier one.
unfoldable pub approval : Text → Text → List Approved → Option Text
approval raw candidate [] = none
approval raw candidate (a ∷ as') = elim (approval raw candidate as') [
  | some architecture ↦ some architecture
  | none ↦
      if text_eq a.raw_name raw && text_eq a.package_row.candidate_version candidate
      then some a.package_row.architecture
      else none
]

unfoldable pub check_configured : List Approved → List Configure → Parsed (Unit {0})
unfolding approval
check_configured approved [] = ok tt
check_configured approved (c ∷ cs) = do
  refuse_if (not (same_version (approval c.raw_name c.candidate approved) c.architecture))
      (malformed "APT simulation configures a package outside the exact plan")
  check_configured approved cs

abbrev pub package_rows : List Approved → List PendingPackage
package_rows [] = []
package_rows (a ∷ as') = a.package_row ∷ package_rows as'

-- `ParsedAptSimulation`
pub record AptSimulation : Type 0 where
  pub packages : List PendingPackage
  pub not_upgraded_count : ℕ

-- What follows the loop over the lines.
module _ (t : Tables) where
  unfoldable pub apt_result : Text → Inventory → Plan → Option Summary → Parsed AptSimulation
  unfolding apt_packages check_configured sorted
  apt_result native inv p none = err (malformed "APT simulation has no exact plan summary")
  apt_result native inv p (some s) = do
    refuse_if (not (s.newly_installed == 0) || not (s.removed == 0))
        (malformed "APT simulation is not an upgrade-only plan")
    refuse_if (not (s.upgraded == length p.changes))
        (malformed "APT simulation summary does not match its changes")
    approved ← apt_packages t native inv.versions [] p.changes
    check_configured approved p.pending_conf
    ok (record {
      packages = sorted pending_id (package_rows approved);
      not_upgraded_count = s.not_upgraded;
    })

  -- `parse_apt_simulation`, of texts
  unfoldable pub parse_apt_simulation : Text → Text → Text → Parsed AptSimulation
  unfolding apt_lines apt_result parse_native_architecture parse_installed_inventory split_lines
      utf8_length
  parse_apt_simulation text native_architecture installed_inventory = do
    refuse_if (ltb (8 * 1024 * 1024) (utf8_length text))
        (malformed "APT simulation output is missing or oversized")
    native ← parse_native_architecture t native_architecture
    inv ← parse_installed_inventory installed_inventory
    refuse_if (not (is_empty inv.unfinished))
        (parse_error ScanFailure.dpkg_unfinished (codes "dpkg reports unfinished package state"))
    p ← apt_lines t no_plan (split_lines text)
    apt_result native inv p p.summary
