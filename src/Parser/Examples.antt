-- ===== src/Parser/Examples.antt =====
-- The plan of an upgrade and of a cleanup, read from what apt and dpkg print.
use hubinet_ops_next.Prelude.{
  ◌≡◌, refl, ℕ, ◌+◌, ◌-◌, ◌<◌, true, false, ◌&&◌, ◌||◌, none, some, [], ◌∷◌, arith, Text, codes,
  leb, ◌==◌, if◌then◌else◌, any, All, starts_with, text_eq,
}
use hubinet_ops_next.Prelude.Results.{ok}
use hubinet_ops_next.Models.{PackageId, PendingPackage}
use hubinet_ops_next.Parser.Lines.{strip, Tables, split_lines}
use hubinet_ops_next.Parser.Match.{Inst, Summary, match_inst, match_summary, is_architecture}
use hubinet_ops_next.Parser.Order.{IsIncreasing}
use hubinet_ops_next.Parser.Fault.{◌>>=◌, refuse_if}
use hubinet_ops_next.Parser.Evidence.{Inventory, parse_installed_inventory}
use hubinet_ops_next.Parser.Apt.{pending_id, AptSimulation, parse_apt_simulation}
use hubinet_ops_next.Parser.Autoremove.{
  removable_id, AutoremoveSimulation, parse_autoremove_simulation,
}
use hubinet_ops_next.Parser.Trips.{is_printable, match_inst-inst_text, inst_text}
use hubinet_ops_next.Parser.Counts.{match_summary-IsBounded, IsBounded}
use hubinet_ops_next.Parser.Sound.{IsBacked, parse_apt_simulation-IsUpgrade}
use hubinet_ops_next.Parser.Safe.{IsPresent, parse_autoremove_simulation-IsPlan}
use hubinet_ops_next.Parser.Inventory.{IsListing, parse_installed_inventory-IsListing}
use hubinet_ops_next.Parser.Forbidden.{removes, parse_apt_simulation-removes}

-- The tables of ASCII; a value in quotes is not unquoted.
abbrev pub ascii_digit : ℕ → ℕ
ascii_digit c = if leb 48 c && leb c 57 then c - 48 else 0

abbrev pub tables : Tables
tables = record {
  unicode = record {
    is_space = λ c. c == 32 || (leb 9 c && leb c 13);
    is_digit = λ c. leb 48 c && leb c 57;
  };
  digit = ascii_digit;
  same_letter = λ c p. c == p || c + 32 == p;
  lower = λ s. s;
  shlex_split = λ s. s ∷ [];
  shlex_fails = λ s. false;
}

abbrev pub upgrade_text : Text
upgrade_text =
    codes
      "Inst bash [1] (2 Debian:12 [amd64])\nConf bash (2 Debian:12 [amd64])\n1 upgraded, 0 newly installed, 0 to remove and 0 not upgraded.\n"

abbrev pub native_text : Text
native_text = codes "amd64\n"

abbrev pub inventory_text : Text
inventory_text = codes "bash\tamd64\t1\tinstalled\n"

abbrev pub bash : PendingPackage
bash = record {
  name = codes "bash";
  architecture = codes "amd64";
  installed_version = codes "1";
  candidate_version = codes "2";
  origin = some (codes "Debian:12");
  security = none;
}

abbrev pub upgrade : AptSimulation
upgrade = record { packages = bash ∷ []; not_upgraded_count = 0 }

upgrade_read : parse_apt_simulation tables upgrade_text native_text inventory_text ≡ ok upgrade
unfolding parse_apt_simulation ◌>>=◌ refuse_if codes text_eq is_architecture starts_with
upgrade_read = refl

parse_apt_simulation-IsUpgrade_example :
    (inv : Inventory) × (parse_installed_inventory inventory_text ≡ ok inv)
    × (inv.unfinished ≡ [])
    × (All (IsBacked inv.versions) (bash ∷ []) × IsIncreasing pending_id (bash ∷ []))
parse_apt_simulation-IsUpgrade_example =
    parse_apt_simulation-IsUpgrade tables upgrade_text native_text inventory_text upgrade
      upgrade_read

parse_apt_simulation-removes_example :
    any (λ l. removes (strip tables l)) (split_lines upgrade_text) ≡ false
parse_apt_simulation-removes_example =
    parse_apt_simulation-removes tables upgrade_text native_text inventory_text upgrade upgrade_read

abbrev cleanup_text : Text
cleanup_text =
    codes "Remv bash [1]\n0 upgraded, 0 newly installed, 1 to remove and 0 not upgraded.\n"

abbrev cleanup : AutoremoveSimulation
cleanup = record {
  packages =
      record { name = codes "bash"; architecture = codes "amd64"; installed_version = codes "1" }
      ∷ [];
  not_upgraded_count = 0;
}

cleanup_read :
    parse_autoremove_simulation tables cleanup_text native_text inventory_text ≡ ok cleanup
unfolding parse_autoremove_simulation ◌>>=◌ refuse_if codes text_eq is_architecture starts_with
cleanup_read = refl

parse_autoremove_simulation-IsPlan_example :
    (inv : Inventory) × (parse_installed_inventory inventory_text ≡ ok inv)
    × (inv.unfinished ≡ [])
    × (All (IsPresent inv.versions) cleanup.packages × IsIncreasing removable_id cleanup.packages)
parse_autoremove_simulation-IsPlan_example =
    parse_autoremove_simulation-IsPlan tables cleanup_text native_text inventory_text cleanup
      cleanup_read

abbrev pub bash_id : PackageId
bash_id = record { name = codes "bash"; architecture = codes "amd64" }

abbrev pub listing : Inventory
listing = record { versions = (bash_id, codes "1") ∷ []; unfinished = []; seen = bash_id ∷ [] }

listing_read : parse_installed_inventory inventory_text ≡ ok listing
unfolding parse_installed_inventory ◌>>=◌ refuse_if codes text_eq is_architecture
listing_read = refl

parse_installed_inventory-IsListing_example : IsListing listing
parse_installed_inventory-IsListing_example =
    parse_installed_inventory-IsListing inventory_text listing listing_read

abbrev change : Inst
change = record {
  name = codes "bash";
  installed = codes "1";
  candidate = codes "2";
  relstr = codes "Debian:12 [amd64]";
}

change_printable : is_printable tables change ≡ true
unfolding codes
change_printable = refl

match_inst-inst_text_example :
    match_inst tables (inst_text change (codes "amd64" ∷ [])) ≡ some change
unfolding codes
match_inst-inst_text_example =
    match_inst-inst_text tables change (codes "amd64" ∷ []) change_printable refl

digit_small : (c : ℕ) → ascii_digit c < 10
digit_small c = ground arith

abbrev held : Summary
held = record { upgraded = 1; newly_installed = 0; removed = 0; not_upgraded = 12 }

abbrev summary_text : Text
summary_text = codes "1 upgraded, 0 newly installed, 0 to remove and 12 not upgraded."

held_read : match_summary tables summary_text ≡ some held
unfolding match_summary codes
held_read = refl

match_summary-IsBounded_example : IsBounded held
match_summary-IsBounded_example =
    match_summary-IsBounded tables digit_small summary_text held held_read
