-- ===== src/Parser/Trips.antt =====
-- The lines that the regular expressions of custom_components/hubinet_ops/packages/parser.py read, as
-- they are printed.
use hubinet_ops_next.Prelude.{
  ◌≡◌, refl, ℕ, Bool, true, false, not, ◌&&◌, some, [], ◌∷◌, ◌++◌, arith, Text, codes, String,
  is_empty, all, ◌||◌, ◌==◌, ◌∙◌, List,
}
use hubinet_ops_next.Snapshots.{after_prefix}
use hubinet_ops_next.Parser.Lines.{Tables, span}
use hubinet_ops_next.Parser.Match.{
  some_of, non_blank, in_brackets, not_close, groups, Inst, match_installed, match_candidate,
  match_inst, match_remv, outside, inside, next_place,
}

after_prefix_lem : (p s : Text) → after_prefix p (p ++ s) ≡ some s
unfolding after_prefix
after_prefix_lem [] s = refl
after_prefix_lem (c ∷ p) s = ground (arith, after_prefix_lem p s)

first : (b c : Bool) → (b && c) ≡ true → b ≡ true
first b c h = ground arith

-- A run ends at the first character outside the class.
span_lem :
    (p : ℕ → Bool) (s : Text) (c : ℕ) (r : Text)
    → all p s ≡ true
    → p c ≡ false
    → span p (s ++ c ∷ r) ≡ (s, c ∷ r)
unfolding span
span_lem p [] c r h k = rw k refl
span_lem p (d ∷ s) c r h k = rw (span_lem p s c r (ground arith) k, first (p d) (all p s) h) refl

some_of_lem :
    (p : ℕ → Bool) (s : Text) (c : ℕ) (r : Text)
    → is_empty s ≡ false
    → all p s ≡ true
    → p c ≡ false
    → some_of p (s ++ c ∷ r) ≡ some (s, c ∷ r)
unfolding some_of
some_of_lem p s c r e h k = rw (span_lem p s c r h k, e) refl

-- A text that one of the repetitions `[...]+` reads whole.
abbrev pub is_run : (ℕ → Bool) → Text → Bool
is_run p s = not (is_empty s) && all p s

run_empty : (p : ℕ → Bool) (s : Text) → is_run p s ≡ true → is_empty s ≡ false
run_empty p s h = ground arith

run_all : (p : ℕ → Bool) (s : Text) → is_run p s ≡ true → all p s ≡ true
run_all p s h = ground arith

-- `<name> [<version>]`, and what follows.
abbrev installed_text : Text → Text → Text → Text
installed_text name version rest = name ++ (codes " [" ++ (version ++ (codes "]" ++ rest)))

-- ` (<candidate> <description>)`
abbrev candidate_text : Text → Text → Text → Text
candidate_text candidate relstr rest =
    codes " (" ++ (candidate ++ (codes " " ++ (relstr ++ (codes ")" ++ rest))))

-- The groups in brackets that may follow, each after a blank.
unfoldable pub groups_text : List Text → Text
groups_text [] = []
groups_text (g ∷ gs) = codes " [" ++ (g ++ (codes "]" ++ groups_text gs))

-- What a group may contain.
abbrev pub in_group : ℕ → Bool
in_group c = not (c == b']' || (c == b'[' || (c == b'\r' || c == b'\n')))

abbrev pub are_groups : List Text → Bool
are_groups gs = all (all in_group) gs

inside_lem :
    (g rest : Text) → all in_group g ≡ true → groups inside (g ++ b']' ∷ rest) ≡ groups outside rest
unfolding groups next_place
inside_lem [] rest h = refl
inside_lem (c ∷ g) rest h = ground (arith, inside_lem g rest)

groups_lem : (gs : List Text) → are_groups gs ≡ true → groups outside (groups_text gs) ≡ true
unfolding groups groups_text next_place codes
groups_lem [] h = refl
groups_lem (g ∷ gs) h =
    inside_lem g (groups_text gs) (first (all in_group g) (are_groups gs) h)
    ∙ groups_lem gs (ground arith)

-- The line of a removal, as `apt-get --simulate` prints it.
abbrev pub remv_text : Text → Text → Text
remv_text name version = codes "Remv " ++ installed_text name version []

-- The line of a change.
abbrev pub inst_text : Inst → List Text → Text
inst_text i gs =
    codes "Inst "
    ++ installed_text i.name i.installed (candidate_text i.candidate i.relstr (groups_text gs))

module _ (t : Tables) where
  match_installed_lem :
      (action : String) (name version rest : Text)
      → is_run (non_blank t) name ≡ true
      → is_run (in_brackets t) version ≡ true
      → match_installed t action (codes action ++ installed_text name version rest)
        ≡ some (name, version, rest)
  unfolding match_installed codes after_prefix
  match_installed_lem action name version rest h k =
      rw
        (
          after_prefix_lem (codes action) (installed_text name version rest),
          some_of_lem (non_blank t) name b' ' (b'[' ∷ (version ++ (codes "]" ++ rest)))
              (run_empty (non_blank t) name h) (run_all (non_blank t) name h) refl,
          some_of_lem (in_brackets t) version b']' rest (run_empty (in_brackets t) version k)
              (run_all (in_brackets t) version k) refl,
        )
        refl

  match_candidate_lem :
      (candidate relstr : Text) (gs : List Text)
      → is_run (non_blank t) candidate ≡ true
      → all not_close relstr ≡ true
      → are_groups gs ≡ true
      → match_candidate t (candidate_text candidate relstr (groups_text gs))
        ≡ some (candidate, relstr)
  unfolding match_candidate codes after_prefix
  match_candidate_lem candidate relstr gs h k g =
      rw
        (
          some_of_lem (non_blank t) candidate b' ' (relstr ++ (codes ")" ++ groups_text gs))
              (run_empty (non_blank t) candidate h) (run_all (non_blank t) candidate h) refl,
          span_lem not_close relstr b')' (groups_text gs) k refl,
          groups_lem gs g,
        )
        refl

  -- Printing a removal and reading the line back gives its name and version, where the name is
  -- not empty and has no blank, and the version is not empty and has neither a blank nor a
  -- closing bracket.
  pub match_remv-remv_text :
      (name version : Text)
      → is_run (non_blank t) name ≡ true
      → is_run (in_brackets t) version ≡ true
      → match_remv t (remv_text name version) ≡ some (name, version)
  unfolding match_remv groups
  match_remv-remv_text name version h k = rw (match_installed_lem "Remv " name version [] h k) refl

  abbrev pub is_printable : Inst → Bool
  is_printable i =
      (is_run (non_blank t) i.name && is_run (in_brackets t) i.installed)
      && (is_run (non_blank t) i.candidate && all not_close i.relstr)

  both_of : (b c : Bool) → (b && c) ≡ true → (b ≡ true) × (c ≡ true)
  both_of b c h = (ground arith, ground arith)

  -- A change that is printed, with any sequence of bracketed groups after it, is read back as the
  -- change, where its name, versions and description have no character that ends them and only the
  -- description may be empty.
  pub match_inst-inst_text :
      (i : Inst) (gs : List Text)
      → is_printable i ≡ true
      → are_groups gs ≡ true
      → match_inst t (inst_text i gs) ≡ some i
  unfolding match_inst
  match_inst-inst_text i gs h g =
      let (l, r) = both_of _ _ h in
      let (name, installed) = both_of _ _ l in
      let (candidate, relstr) = both_of _ _ r in
      rw
        (
          match_installed_lem "Inst " i.name i.installed
              (candidate_text i.candidate i.relstr (groups_text gs)) name installed,
          match_candidate_lem i.candidate i.relstr gs candidate relstr g,
        )
        refl
