-- ===== src/Parser/Match.antt =====
-- The regular expressions of custom_components/hubinet_ops/packages/parser.py, as functions that
-- read a text from its start. Each repetition in them is followed by a character that it cannot
-- contain, so its longest run is the only one with which the whole can match.
use hubinet_ops_next.Prelude.{
  String, ℕ, ◌+◌, ◌*◌, Bool, true, false, not, ◌&&◌, ◌||◌, Option, none, some, [], ◌∷◌, Text, codes,
  text_eq, ◌==◌, leb, if◌then◌else◌, length, is_empty,
}
use hubinet_ops_next.Snapshots.{after_prefix}
use hubinet_ops_next.Parser.Lines.{Tables, is_blank, span}

infixl 5 ◌>>=◌ ◌>>◌
abbrev pub ◌>>=◌ : {A B : Type 0} → Option A → (A → Option B) → Option B
none >>= f = none
some a >>= f = f a

abbrev pub ◌>>◌ : {A B : Type 0} → Option A → Option B → Option B
m >> n = m >>= λ _. n

abbrev pub when : Bool → Option (Unit {0})
when true = some tt
when false = none

-- One or more characters of a class.
unfoldable pub some_of : (ℕ → Bool) → Text → Option (Text × Text)
unfolding span
some_of p s = if is_empty (span p s).0 then none else some (span p s)

abbrev pub non_blank : Tables → ℕ → Bool
non_blank t c = not (is_blank t c)

-- `[^\]\s]`
abbrev pub in_brackets : Tables → ℕ → Bool
in_brackets t c = not (c == b']' || is_blank t c)

abbrev pub not_close : ℕ → Bool
not_close c = not (c == b')')

-- `(?: \[[^\[\]\r\n]*\])*$`, by the place in a group
pub data Place : Type 0 where
  outside opening inside : Place

unfoldable pub next_place : Place → ℕ → Option Place
next_place outside c = if c == b' ' then some opening else none
next_place opening c = if c == b'[' then some inside else none
next_place inside c =
    if c == b']'
    then some outside
    else if c == b'[' || (c == b'\r' || c == b'\n')
    then none
    else some inside

abbrev is_outside : Place → Bool
is_outside outside = true
is_outside _ = false

unfoldable pub groups : Place → Text → Bool
unfolding next_place
groups a [] = is_outside a
groups a (c ∷ s) = elim (next_place a c) [ none ↦ false | some b ↦ groups b s ]

-- The named groups of `_INST_RE`; `_CONF_RE` has no installed version, `_REMV_RE` no candidate.
pub record Inst : Type 0 where
  pub name : Text
  pub installed : Text
  pub candidate : Text
  pub relstr : Text

-- The part in parentheses that Inst and Conf end with: a candidate and its description.
unfoldable pub match_candidate : Tables → Text → Option (Text × Text)
unfolding some_of span after_prefix groups
match_candidate t s = do
  s1 ← after_prefix (codes " (") s
  (candidate, s2) ← some_of (non_blank t) s1
  s3 ← after_prefix (codes " ") s2
  s4 ← after_prefix (codes ")") (span not_close s3).1
  when (groups outside s4)
  some (candidate, (span not_close s3).0)

-- The name and the version in brackets that Inst and Remv start with.
unfoldable pub match_installed : Tables → String → Text → Option (Text × Text × Text)
unfolding some_of span after_prefix
match_installed t action line = do
  s1 ← after_prefix (codes action) line
  (name, s2) ← some_of (non_blank t) s1
  s3 ← after_prefix (codes " [") s2
  (installed, s4) ← some_of (in_brackets t) s3
  s5 ← after_prefix (codes "]") s4
  some (name, installed, s5)

-- `_INST_RE.fullmatch(line)`
unfoldable pub match_inst : Tables → Text → Option Inst
unfolding match_installed match_candidate
match_inst t line = do
  (name, installed, s) ← match_installed t "Inst " line
  (candidate, relstr) ← match_candidate t s
  some (record { name = name; installed = installed; candidate = candidate; relstr = relstr })

-- `_CONF_RE.fullmatch(line)`: the name, the candidate and its description
unfoldable pub match_conf : Tables → Text → Option (Text × Text × Text)
unfolding match_candidate some_of span after_prefix
match_conf t line = do
  s1 ← after_prefix (codes "Conf ") line
  (name, s2) ← some_of (non_blank t) s1
  (candidate, relstr) ← match_candidate t s2
  some (name, candidate, relstr)

-- `_REMV_RE.fullmatch(line)`: the name and the installed version
unfoldable pub match_remv : Tables → Text → Option (Text × Text)
unfolding match_installed groups
match_remv t line = do
  (name, installed, s) ← match_installed t "Remv " line
  when (groups outside s)
  some (name, installed)

-- `_ARCHITECTURE_RE.fullmatch`, by what stands before the next character
pub data Before : Type 0 where
  nothing dash character : Before

abbrev is_lower : ℕ → Bool
is_lower c = leb b'a' c && leb c b'z'

abbrev is_lower_or_digit : ℕ → Bool
is_lower_or_digit c = is_lower c || (leb b'0' c && leb c b'9')

unfoldable pub next_before : Before → ℕ → Option Before
next_before nothing c = if is_lower c then some character else none
next_before dash c = if is_lower_or_digit c then some character else none
next_before character c =
    if is_lower_or_digit c then some character else if c == b'-' then some dash else none

abbrev is_character : Before → Bool
is_character character = true
is_character _ = false

unfoldable pub architecture_from : Before → Text → Bool
unfolding next_before
architecture_from a [] = is_character a
architecture_from a (c ∷ s) = elim (next_before a c) [
  | none ↦ false
  | some b ↦ architecture_from b s
]

unfoldable pub is_architecture : Text → Bool
unfolding architecture_from
is_architecture = architecture_from nothing

-- `int(digits)` behind the number `n`
unfoldable pub count_value : Tables → ℕ → Text → ℕ
count_value t n [] = n
count_value t n (c ∷ s) = count_value t (n * 10 + t.digit c) s

-- `\d{1,9}` with its value
unfoldable pub match_count : Tables → Text → Option (ℕ × Text)
unfolding some_of span count_value
match_count t s = do
  (digits, rest) ← some_of t.unicode.is_digit s
  when (leb (length digits) 9)
  some (count_value t 0 digits, rest)

-- The numbers of a summary.
pub record Summary : Type 0 where
  pub upgraded : ℕ
  pub newly_installed : ℕ
  pub removed : ℕ
  pub not_upgraded : ℕ

-- `_SUMMARY_RE.fullmatch(line)`
unfoldable pub match_summary : Tables → Text → Option Summary
unfolding match_count after_prefix
match_summary t line = do
  (upgraded, s1) ← match_count t line
  s2 ← after_prefix (codes " upgraded, ") s1
  (new, s3) ← match_count t s2
  s4 ← after_prefix (codes " newly installed, ") s3
  (removed, s5) ← match_count t s4
  s6 ← after_prefix (codes " to remove and ") s5
  (held, s7) ← match_count t s6
  s8 ← after_prefix (codes " not upgraded.") s7
  when (is_empty s8)
  some (record {
    upgraded = upgraded;
    newly_installed = new;
    removed = removed;
    not_upgraded = held;
  })

-- `_BAD_COUNT_RE.fullmatch(line)`
unfoldable pub is_bad_count : Tables → Text → Bool
unfolding match_count
is_bad_count t line = elim (match_count t line) [
  | none ↦ false
  | some (n, s) ↦ text_eq s (codes " not fully installed or removed.")
]
