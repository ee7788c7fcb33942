-- ===== src/Parser/System.antt =====
-- `parse_os_release` (custom_components/hubinet_ops/packages/parser.py).
use hubinet_ops_next.Prelude.{
  ℕ, ◌*◌, Bool, false, not, ◌&&◌, ◌||◌, Option, none, some, List, [], ◌∷◌, ◌++◌, Text, codes,
  text_eq, starts_with, ◌==◌, ltb, if◌then◌else◌, length, is_empty, is_some, any,
}
use hubinet_ops_next.Prelude.Results.{ok, err}
use hubinet_ops_next.Models.{ScanFailure}
use hubinet_ops_next.Parser.Lines.{Tables, span, split_lines, strip, utf8_length}
use hubinet_ops_next.Parser.Fault.{scan_error, malformed, Parsed, ◌>>=◌, ◌>>◌, refuse_if}

-- A dictionary of texts.
unfoldable pub value_of : Text → List (Text × Text) → Option Text
value_of k [] = none
value_of k ((j, v) ∷ d) = if text_eq j k then some v else value_of k d

abbrev or_empty : Option Text → Text
or_empty none = []
or_empty (some s) = s

-- The end of a field's value, where it is not the only word.
abbrev only_word : List Text → Parsed Text
only_word [] = ok []
only_word (v ∷ []) = ok v
only_word (v ∷ w ∷ ws) = err (malformed "OS release evidence contains an ambiguous value")

abbrev is_upper : ℕ → Bool
is_upper c = not (ltb c b'A') && not (ltb b'Z' c)

abbrev is_key_char : ℕ → Bool
is_key_char c = is_upper c || (not (ltb c b'0') && not (ltb b'9' c)) || c == b'_'

-- `[A-Z][A-Z0-9_]*`
abbrev is_key : Text → Bool
is_key [] = false
is_key (c ∷ s) = is_upper c && not (any (λ c. not (is_key_char c)) s)

abbrev not_equals_sign : ℕ → Bool
not_equals_sign c = not (c == b'=')

module _ (t : Tables) where
  -- `line.split("=", 1)` has the two parts; a line with no sign is refused before.
  os_field : List (Text × Text) → Text × Text → Parsed (List (Text × Text))
  unfolding value_of
  os_field values (key, []) = err (malformed "OS release evidence contains a malformed line")
  os_field values (key, sign ∷ raw_value) =
      if not (is_key key) || is_some (value_of key values)
      then err (malformed "OS release evidence contains an invalid field")
      else if t.shlex_fails raw_value
      then err (malformed "OS release evidence contains invalid quoting")
      else only_word (t.shlex_split raw_value) >>= λ v. ok (values ++ (key, v) ∷ [])

  -- One line of the file.
  unfoldable pub os_line : List (Text × Text) → Text → Parsed (List (Text × Text))
  unfolding span os_field
  os_line values raw =
      let line = strip t raw in
      if is_empty line || starts_with (codes "#") line
      then ok values
      else os_field values (span not_equals_sign line)

  unfoldable pub os_lines : List (Text × Text) → List Text → Parsed (List (Text × Text))
  unfolding os_line
  os_lines values [] = ok values
  os_lines values (l ∷ ls) = os_line values l >>= λ v. os_lines v ls

  abbrev first_of : Text → Text → Text
  first_of [] s = s
  first_of (c ∷ r) s = c ∷ r

  -- `parse_os_release`, of a text
  unfoldable pub parse_os_release : Text → Parsed (Text × Text)
  unfolding os_lines value_of utf8_length split_lines
  parse_os_release text = do
    refuse_if (ltb (64 * 1024) (utf8_length text))
        (malformed "OS release evidence is missing or oversized")
    values ← os_lines [] (split_lines text)
    let os_id = t.lower (or_empty (value_of (codes "ID") values))
    let version =
        first_of (or_empty (value_of (codes "VERSION_ID") values))
          (or_empty (value_of (codes "VERSION_CODENAME") values))
    refuse_if (not (text_eq os_id (codes "debian") || text_eq os_id (codes "ubuntu"))) (
        scan_error ScanFailure.unsupported_os
          (codes "guest operating system is not Debian or Ubuntu"))
    refuse_if (is_empty version || ltb 200 (length version))
        (malformed "OS release evidence has no bounded version")
    ok (os_id, version)
