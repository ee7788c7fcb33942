-- ===== src/Parser/Forbidden.antt =====
-- The lines that no plan may have (custom_components/hubinet_ops/packages/parser.py).
use hubinet_ops_next.Prelude.{
  ◌≡◌, refl, inl, inr, Bool, true, false, ◌||◌, List, [], ◌∷◌, arith, Text, codes, starts_with,
  is_empty, any, Bool-cases,
}
use hubinet_ops_next.Prelude.Results.{ok}
use hubinet_ops_next.Models.{PackageId}
use hubinet_ops_next.Parser.Lines.{Tables, strip, split_lines}
use hubinet_ops_next.Parser.Fault.{after, past}
use hubinet_ops_next.Parser.Apt.{
  Plan, no_plan, AptSimulation, apt_line, apt_lines, parse_apt_simulation,
}
use hubinet_ops_next.Parser.Autoremove.{
  Removal, no_removal, AutoremoveSimulation, removal_line, removal_lines,
  parse_autoremove_simulation,
}

-- A line that removes a package.
abbrev pub removes : Text → Bool
removes line = starts_with (codes "Remv ") line || starts_with (codes "Purg ") line

-- A line that purges, installs or configures one.
abbrev pub changes : Text → Bool
changes line =
    starts_with (codes "Purg ") line
    || (starts_with (codes "Inst ") line || starts_with (codes "Conf ") line)

blank-removes : (line : Text) → is_empty line ≡ true → removes line ≡ false
unfolding codes starts_with
blank-removes [] h = refl
blank-removes (c ∷ s) h = ground arith

blank-changes : (line : Text) → is_empty line ≡ true → changes line ≡ false
unfolding codes starts_with
blank-changes [] h = refl
blank-changes (c ∷ s) h = ground arith

module _ (t : Tables) where
  apt_line-removes : (p q : Plan) (line : Text) → apt_line t p line ≡ ok q → removes line ≡ false
  unfolding apt_line
  apt_line-removes p q line = elim (Bool-cases (is_empty line)) [
    | inl e ↦ λ h. blank-removes line e
    | inr e ↦ elim (Bool-cases (removes line)) [ inl f ↦ rw (e, f) λ h. cc | inr f ↦ λ h. f ]
  ]

  apt_lines-removes :
      (p q : Plan) (ls : List Text)
      → apt_lines t p ls ≡ ok q
      → any (λ l. removes (strip t l)) ls ≡ false
  unfolding apt_lines
  apt_lines-removes p q [] h = refl
  apt_lines-removes p q (l ∷ ls) h = after h λ next first h1.
      rw (apt_line-removes p next (strip t l) first, apt_lines-removes next q ls h1) refl

  -- The plan of an upgrade is refused where some line of it, less the blanks around it, removes or
  -- purges a package.
  pub parse_apt_simulation-removes :
      (text native inventory : Text) (r : AptSimulation)
      → parse_apt_simulation t text native inventory ≡ ok r
      → any (λ l. removes (strip t l)) (split_lines text) ≡ false
  unfolding parse_apt_simulation
  parse_apt_simulation-removes text native inventory r h = past _ _ _ h λ bounded h1.
      after h1 λ architecture resolved h2. after h2 λ inv listed h3.
        past _ _ _ h3
          λ finished h4. after h4 λ p lines h5. apt_lines-removes no_plan p (split_lines text) lines

  removal_line-changes :
      (native : Text) (versions : List (PackageId × Text)) (r s : Removal) (line : Text)
      → removal_line t native versions r line ≡ ok s
      → changes line ≡ false
  unfolding removal_line
  removal_line-changes native versions r s line = elim (Bool-cases (is_empty line)) [
    | inl e ↦ λ h. blank-changes line e
    | inr e ↦ elim (Bool-cases (changes line)) [ inl f ↦ rw (e, f) λ h. cc | inr f ↦ λ h. f ]
  ]

  removal_lines-changes :
      (native : Text) (versions : List (PackageId × Text)) (r s : Removal) (ls : List Text)
      → removal_lines t native versions r ls ≡ ok s
      → any (λ l. changes (strip t l)) ls ≡ false
  unfolding removal_lines
  removal_lines-changes native versions r s [] h = refl
  removal_lines-changes native versions r s (l ∷ ls) h = after h λ next first h1.
      rw
        (
          removal_line-changes native versions r next (strip t l) first,
          removal_lines-changes native versions next s ls h1,
        )
        refl

  -- The plan of a cleanup is refused where some line of it, less the blanks around it, purges,
  -- installs or configures a package.
  pub parse_autoremove_simulation-changes :
      (text native inventory : Text) (s : AutoremoveSimulation)
      → parse_autoremove_simulation t text native inventory ≡ ok s
      → any (λ l. changes (strip t l)) (split_lines text) ≡ false
  unfolding parse_autoremove_simulation
  parse_autoremove_simulation-changes text native inventory s h = past _ _ _ h λ bounded h1.
      after h1 λ architecture resolved h2. after h2 λ inv listed h3. past _ _ _ h3 λ finished h4.
        after h4 λ r lines h5.
          removal_lines-changes architecture inv.versions no_removal r (split_lines text) lines
