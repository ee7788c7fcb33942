-- ===== src/Parser/Evidence.antt =====
-- The evidence beside a simulation: the architecture, and what dpkg has installed
-- (custom_components/hubinet_ops/packages/parser.py).
use hubinet_ops_next.Prelude.{
  ℕ, ◌*◌, Bool, true, false, not, ◌||◌, Option, none, some, List, [], ◌∷◌, ◌++◌, Text, codes,
  text_eq, ◌==◌, ltb, if◌then◌else◌, length, is_empty, is_some, any, String,
}
use hubinet_ops_next.Prelude.Results.{ok, err}
use hubinet_ops_next.Models.{ScanFailure, PackageId}
use hubinet_ops_next.Process.Run.{id_eq, version_of}
use hubinet_ops_next.Parser.Lines.{Tables, span, split_lines, split_at, strip, utf8_length}
use hubinet_ops_next.Parser.Match.{is_architecture}
use hubinet_ops_next.Parser.Order.{sorted}
use hubinet_ops_next.Parser.Fault.{Fault, parse_error, malformed, Parsed, ◌>>=◌, ◌>>◌, refuse_if}

module _ (t : Tables) where
  abbrev only_line : List Text → Parsed Text
  only_line (l ∷ []) = ok l
  only_line _ = err (malformed "native architecture evidence is ambiguous")

  unfoldable pub filled_lines : List Text → List Text
  filled_lines [] = []
  filled_lines (l ∷ ls) =
      let rest = filled_lines ls in if is_empty (strip t l) then rest else l ∷ rest

  -- `parse_native_architecture`, of a text
  unfoldable pub parse_native_architecture : Text → Parsed Text
  unfolding filled_lines utf8_length split_lines strip
  parse_native_architecture text = do
    refuse_if (ltb 4096 (utf8_length text))
        (malformed "native architecture evidence is missing or oversized")
    line ← only_line (filled_lines (split_lines text))
    let architecture = strip t line
    refuse_if (text_eq architecture (codes "all") || not (is_architecture architecture))
        (malformed "native architecture evidence is malformed")
    ok architecture

-- The words of `DPKG_STATUS_WORDS`.
pub data Status : Type 0 where
  installed not_installed config_files half_installed unpacked half_configured : Status
  triggers_awaited triggers_pending : Status

unfoldable pub status_of : Text → Option Status
status_of s =
    if text_eq s (codes "installed")
    then some installed
    else if text_eq s (codes "not-installed")
    then some not_installed
    else if text_eq s (codes "config-files")
    then some config_files
    else if text_eq s (codes "half-installed")
    then some half_installed
    else if text_eq s (codes "unpacked")
    then some unpacked
    else if text_eq s (codes "half-configured")
    then some half_configured
    else if text_eq s (codes "triggers-awaited")
    then some triggers_awaited
    else if text_eq s (codes "triggers-pending")
    then some triggers_pending
    else none

-- `DPKG_UNFINISHED_STATUS_WORDS`
abbrev pub is_unfinished : Status → Bool
is_unfinished installed = false
is_unfinished not_installed = false
is_unfinished config_files = false
is_unfinished _ = true

-- `InstalledInventory`, with the identities that were seen.
pub record Inventory : Type 0 where
  pub versions : List (PackageId × Text)
  pub unfinished : List (PackageId × Status)
  pub seen : List PackageId

abbrev pub no_inventory : Inventory
no_inventory = record { versions = []; unfinished = []; seen = [] }

abbrev pub bad_row : Fault
bad_row = malformed "installed package inventory contains a malformed row"

-- A row of an identity that is not `not-installed`.
unfoldable pub record_status : Inventory → PackageId → Text → Status → Parsed Inventory
record_status inv i version installed =
    if is_empty version
    then err bad_row
    else ok (record inv { versions = inv.versions ++ (i, version) ∷ []; seen = i ∷ inv.seen })
record_status inv i version status =
    if is_unfinished status
    then ok (record inv { unfinished = inv.unfinished ++ (i, status) ∷ []; seen = i ∷ inv.seen })
    else ok (record inv { seen = i ∷ inv.seen })

unfoldable pub inventory_fields : Inventory → Text → Text → Text → Option Status → Parsed Inventory
unfolding record_status
inventory_fields inv name architecture version none =
    err (malformed "installed package inventory contains an unknown status")
inventory_fields inv name architecture version (some not_installed) = ok inv
inventory_fields inv name architecture version (some status) =
    if is_empty name
      || ltb 300 (length name)
      || (ltb 500 (length version) || not (is_architecture architecture))
    then err bad_row
    else if any (id_eq (record { name = name; architecture = architecture })) inv.seen
    then err (malformed "installed package inventory contains a duplicate identity")
    else record_status inv (record { name = name; architecture = architecture }) version status

abbrev pub inventory_row : Inventory → List Text → Parsed Inventory
inventory_row inv (name ∷ architecture ∷ version ∷ status ∷ []) =
    inventory_fields inv name architecture version (status_of status)
inventory_row inv _ = err bad_row

unfoldable pub inventory_lines : Inventory → List Text → Parsed Inventory
unfolding inventory_fields status_of split_at
inventory_lines inv [] = ok inv
inventory_lines inv (l ∷ ls) =
    (if is_empty l then ok inv else inventory_row inv (split_at b'\t' [] l)) >>= λ next.
    inventory_lines next ls

-- `parse_installed_inventory`, of a text
unfoldable pub parse_installed_inventory : Text → Parsed Inventory
unfolding inventory_lines utf8_length split_lines sorted
parse_installed_inventory text = do
  refuse_if (ltb (16 * 1024 * 1024) (utf8_length text))
      (malformed "installed package inventory evidence is missing or oversized")
  inv ← inventory_lines no_inventory (split_lines text)
  ok (record inv { unfinished = sorted (λ x. x.0) inv.unfinished })

abbrev not_colon : ℕ → Bool
not_colon c = not (c == b':')

-- `_split_qualified_name`: the architecture is what stands behind the first colon.
abbrev behind_colon : Text × Text → Text × Option Text
behind_colon (name, []) = (name, none)
behind_colon (name, colon ∷ architecture) = (name, some architecture)

unfoldable pub split_qualified_name : Text → Text × Option Text
unfolding span
split_qualified_name raw = behind_colon (span not_colon raw)

-- `_resolve_installed_architecture`
abbrev pub candidates : Option Text → Text → List Text
candidates (some architecture) native = architecture ∷ []
candidates none native = native ∷ codes "all" ∷ []

unfoldable pub matches : Text → List (PackageId × Text) → List Text → List Text
unfolding version_of
matches name inv [] = []
matches name inv (a ∷ as') =
    let rest = matches name inv as' in
    if is_some (version_of (record { name = name; architecture = a }) inv) then a ∷ rest else rest

abbrev pub changed : String → Fault
changed s = parse_error ScanFailure.guest_changed_during_scan (codes s)

abbrev only_match : List Text → Parsed Text
only_match (a ∷ []) = ok a
only_match _ = err (changed "APT package no longer has an unambiguous installed identity")

unfoldable pub resolve_architecture :
    Text → Option Text → Text → List (PackageId × Text) → Parsed Text
unfolding matches
resolve_architecture name qualified native inv =
    only_match (matches name inv (candidates qualified native))
