-- ===== src/Parser/Lines.antt =====
-- Python's operations on text that custom_components/hubinet_ops/packages/parser.py splits its input
-- with: `splitlines`, `split`, `strip`, and the longest run of a class of characters.
use hubinet_ops_next.Prelude.{
  ℕ, ◌+◌, Bool, true, false, ◌&&◌, ◌||◌, List, [], ◌∷◌, ◌++◌, Text, ◌==◌, ltb, leb, if◌then◌else◌,
  is_empty,
}
use hubinet_ops_next.Snapshots.{Unicode}

-- What Python takes from tables: those of Unicode, the value of a decimal digit, whether a
-- character equals a letter when case is ignored, `str.lower`, and `shlex.split`.
pub record Tables : Type 0 where
  pub unicode : Unicode
  pub digit : ℕ → ℕ
  pub same_letter : ℕ → ℕ → Bool
  pub lower : Text → Text
  pub shlex_split : Text → List Text
  -- whether `shlex.split` raises `ValueError`
  pub shlex_fails : Text → Bool

-- `str.isspace` and `\s`; the tables cannot change that a space is one.
abbrev pub is_blank : Tables → ℕ → Bool
is_blank t c = c == b' ' || t.unicode.is_space c

-- A longest run, and the rest.
unfoldable pub span : (ℕ → Bool) → Text → Text × Text
span p [] = ([], [])
span p (c ∷ s) = let rest = span p s in if p c then (c ∷ rest.0, rest.1) else ([], c ∷ s)

-- The characters that `str.splitlines` breaks at.
unfoldable pub is_line_break : ℕ → Bool
is_line_break c =
    (leb 10 c && leb c 13) || (leb 28 c && leb c 30) || (c == 133 || c == 8232 || c == 8233)

pub data Kind : Type 0 where
  skipped broken kept : Kind

-- A line feed right after a carriage return belongs to the same break.
unfoldable pub kind : Bool → ℕ → Kind
unfolding is_line_break
kind after_cr c = if after_cr && c == 10 then skipped else if is_line_break c then broken else kept

unfoldable pub split_from : Bool → Text → Text → List Text
unfolding kind
split_from after_cr line [] = if is_empty line then [] else line ∷ []
split_from after_cr line (c ∷ s) = elim (kind after_cr c) [
  | skipped ↦ split_from false line s
  | broken ↦ line ∷ split_from (c == 13) [] s
  | kept ↦ split_from false (line ++ c ∷ []) s
]

-- `text.splitlines()`
unfoldable pub split_lines : Text → List Text
unfolding split_from
split_lines = split_from false []

-- `text.split(separator)`
unfoldable pub split_at : ℕ → Text → Text → List Text
split_at separator part [] = part ∷ []
split_at separator part (c ∷ s) = elim (c == separator) [
  | true ↦ part ∷ split_at separator [] s
  | false ↦ split_at separator (part ++ c ∷ []) s
]

-- `text.strip()`
unfoldable pub trim_start : (ℕ → Bool) → Text → Text
trim_start blank [] = []
trim_start blank (c ∷ s) = let rest = trim_start blank s in if blank c then rest else c ∷ s

unfoldable pub trim_end : (ℕ → Bool) → Text → Text
trim_end blank [] = []
trim_end blank (c ∷ s) =
    let rest = trim_end blank s in if blank c && is_empty rest then [] else c ∷ rest

unfoldable pub strip : Tables → Text → Text
unfolding trim_start trim_end
strip t s = trim_end (is_blank t) (trim_start (is_blank t) s)

-- `len(text.encode())`
unfoldable pub utf8_length : Text → ℕ
utf8_length [] = 0
utf8_length (c ∷ s) =
    (if ltb c 128 then 1 else if ltb c 2048 then 2 else if ltb c 65536 then 3 else 4)
    + utf8_length s
