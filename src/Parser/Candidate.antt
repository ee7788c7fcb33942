-- ===== src/Parser/Candidate.antt =====
-- The description of a candidate: its origin, its architecture, and whether the origin marks a
-- security update (custom_components/hubinet_ops/packages/parser.py).
use hubinet_ops_next.Prelude.{
  ℕ, Bool, true, false, not, ◌&&◌, ◌||◌, Option, none, some, [], ◌∷◌, ◌++◌, Text, codes, ◌==◌, ltb,
  if◌then◌else◌, length,
}
use hubinet_ops_next.Prelude.Results.{ok, err}
use hubinet_ops_next.Parser.Lines.{Tables, span, strip}
use hubinet_ops_next.Parser.Match.{is_architecture}
use hubinet_ops_next.Parser.Fault.{malformed, Parsed}

-- What stands before the last opening bracket, and behind it.
unfoldable pub last_bracket : Text → Option (Text × Text)
last_bracket [] = none
last_bracket (c ∷ s) = elim (last_bracket s) [
  | some (before, behind) ↦ some (c ∷ before, behind)
  | none ↦ if c == b'[' then some ([], s) else none
]

-- `.*? ` before the bracket: any characters but line feeds, and a space.
unfoldable pub before_space : Text → Option Text
before_space [] = none
before_space (c ∷ []) = if c == b' ' then some [] else none
before_space (c ∷ d ∷ s) = elim (before_space (d ∷ s)) [
  | none ↦ none
  | some origin ↦ if c == b'\n' then none else some (c ∷ origin)
]

abbrev pub not_close_bracket : ℕ → Bool
not_close_bracket c = not (c == b']')

-- The architecture, where nothing stands behind its bracket.
abbrev closed : Text × Text → Option Text
closed (architecture, c ∷ []) = some architecture
closed _ = none

-- The optional origin: its group takes no part where the bracket stands first.
abbrev optional_origin : Text → Option (Option Text)
optional_origin [] = some none
optional_origin (c ∷ s) = elim (before_space (c ∷ s)) [
  | none ↦ none
  | some origin ↦ some (some origin)
]

abbrev both : Option (Option Text) → Option Text → Option (Option Text × Text)
both (some origin) (some architecture) = some (origin, architecture)
both _ _ = none

-- `_RELSTR_RE.fullmatch(relstr)`: the origin and the architecture
unfoldable pub match_relstr : Text → Option (Option Text × Text)
unfolding last_bracket before_space span
match_relstr s = elim (last_bracket s) [
  | none ↦ none
  | some (before, behind) ↦ both (optional_origin before) (closed (span not_close_bracket behind))
]

abbrev filled : Text → Option Text
filled [] = none
filled (c ∷ s) = some (c ∷ s)

abbrev bounded : Option Text → Option Text
bounded none = none
bounded (some s) = if ltb 500 (length s) then none else some s

module _ (t : Tables) where
  origin_of : Option Text → Option Text
  origin_of none = none
  origin_of (some s) = bounded (filled (strip t s))

  -- `_parse_candidate_description`, over the match
  described : Option (Option Text × Text) → Parsed (Option Text × Text)
  unfolding origin_of
  described none = err (malformed "APT simulation candidate description has no architecture")
  described (some (origin, architecture)) =
      if not (is_architecture architecture)
      then err (malformed "APT simulation architecture is malformed")
      else ok (origin_of origin, architecture)

  unfoldable pub candidate_description : Text → Parsed (Option Text × Text)
  unfolding described match_relstr
  candidate_description s = described (match_relstr s)

  unfoldable pub same_word : Text → Text → Bool
  same_word [] [] = true
  same_word (c ∷ s) (p ∷ ps) = t.same_letter c p && same_word s ps
  same_word _ _ = false

  -- Whether a segment ends with the marker.
  unfoldable pub ends_with_marker : Text → Bool
  unfolding same_word
  ends_with_marker [] = false
  ends_with_marker (c ∷ s) = same_word (c ∷ s) (codes "-security") || ends_with_marker s

  abbrev is_separator : ℕ → Bool
  is_separator c = c == b'/' || (c == b' ' || c == b':')

  -- `_SECURITY_ORIGIN_RE.search`: a segment between separators ends with the marker.
  unfoldable pub marked_from : Text → Text → Bool
  unfolding ends_with_marker
  marked_from segment [] = ends_with_marker segment
  marked_from segment (c ∷ s) = elim (is_separator c) [
    | true ↦ ends_with_marker segment || marked_from [] s
    | false ↦ marked_from (segment ++ c ∷ []) s
  ]

  -- Positive evidence only: an origin with no marker leaves it unknown.
  unfoldable pub security_of : Option Text → Option Bool
  unfolding marked_from
  security_of none = none
  security_of (some origin) = if marked_from [] origin then some true else none
