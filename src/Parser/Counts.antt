-- ===== src/Parser/Counts.antt =====
-- The counts of a summary, and the lines of a text
-- (custom_components/hubinet_ops/packages/parser.py).
use hubinet_ops_next.Prelude.{
  ◌≡◌, refl, subst, inl, inr, ◌⊎◌, ℕ, zero, suc, ◌+◌, ◌*◌, ◌<◌, ◌≤◌, Bool, true, false, not, ◌||◌,
  Option, none, some, [], ◌∷◌, ◌++◌, arith, Text, codes, is_empty, any, all, length, leb, ◌==◌,
  Bool-cases, Option-cases,
}
use hubinet_ops_next.Snapshots.{after_prefix}
use hubinet_ops_next.Parser.Lines.{
  Tables, Kind, skipped, broken, kept, is_line_break, kind, split_from, split_lines,
}
use hubinet_ops_next.Parser.Match.{
  some_of, when, ◌>>=◌, count_value, match_count, Summary, match_summary,
}

-- A number times ten, as often as there are digits.
unfoldable scale : ℕ → ℕ → ℕ
scale zero n = n
scale (suc k) n = scale k (n * 10)

found :
    {A B C : Type 0} (m : Option A) (f : A → Option B) {b : B}
    → (m >>= f) ≡ some b
    → ((a : A) → m ≡ some a → f a ≡ some b → C)
    → C
found none f h next = cc
found (some a) f h next = next a refl h

scale_above : (k n : ℕ) → n ≤ scale k n
unfolding scale
scale_above zero n = omega arith
scale_above (suc k) n = omega (arith, scale_above k (n * 10))

abbrev pub IsBounded : Summary → Type 0
IsBounded s =
    ((s.upgraded < 1000000000) × (s.newly_installed < 1000000000))
    × ((s.removed < 1000000000) × (s.not_upgraded < 1000000000))

module _ (t : Tables) (digits_small : (c : ℕ) → t.digit c < 10) where
  count_value_below : (k n m : ℕ) (s : Text) → length s ≤ k → n < m → count_value t n s < scale k m
  unfolding count_value scale
  count_value_below k n m [] h b = omega (arith, scale_above k m)
  count_value_below zero n m (c ∷ s) h b = omega arith
  count_value_below (suc k) n m (c ∷ s) h b =
      count_value_below k (n * 10 + t.digit c) (m * 10) s (omega arith)
        (omega (arith, digits_small c))

  match_count_below : (s : Text) (n : ℕ) (r : Text) → match_count t s ≡ some (n, r) → n < 1000000000
  unfolding match_count scale
  match_count_below s n r = elim (Option-cases (some_of t.unicode.is_digit s)) [
    | inl e ↦ rw e λ h. cc
    | inr ((digits, rest), e) ↦ rw e elim (Bool-cases (leb (length digits) 9)) [
      | inl few ↦ rw few λ h.
          let same : count_value t 0 digits ≡ n = cc in
          subst (λ x. x < 1000000000) same
            (count_value_below 9 0 1 digits (ground arith) (omega arith))
      | inr many ↦ rw many λ h. cc
    ]
  ]

  -- Every number of a summary line that is read is below a thousand million.
  pub match_summary-IsBounded :
      (line : Text) (s : Summary) → match_summary t line ≡ some s → IsBounded s
  unfolding match_summary
  match_summary-IsBounded line s h = found (match_count t line) _ h λ (a, s1) e1 h1.
      found (after_prefix (codes " upgraded, ") s1) _ h1 λ s2 p1 h2.
        found (match_count t s2) _ h2 λ (b, s3) e2 h3.
          found (after_prefix (codes " newly installed, ") s3) _ h3 λ s4 p2 h4.
            found (match_count t s4) _ h4 λ (c, s5) e3 h5.
              found (after_prefix (codes " to remove and ") s5) _ h5 λ s6 p3 h6.
                found (match_count t s6) _ h6 λ (d, s7) e4 h7.
                  found (after_prefix (codes " not upgraded.") s7) _ h7 λ s8 p4 h8.
                    found (when (is_empty s8)) _ h8 λ x all_read h9.
                      let same : record {
                        upgraded = a;
                        newly_installed = b;
                        removed = c;
                        not_upgraded = d;
                      }
                          ≡ s =
                        cc in
                      subst IsBounded same (
                        (match_count_below line a s1 e1, match_count_below s2 b s3 e2),
                        (match_count_below s4 c s5 e3, match_count_below s6 d s7 e4),
                      )

-- A text with no line break.
abbrev pub is_one_line : Text → Bool
is_one_line s = not (any is_line_break s)

any-append : (p : ℕ → Bool) (s r : Text) → any p (s ++ r) ≡ (any p s || any p r)
any-append p [] r = refl
any-append p (c ∷ s) r = ground (arith, any-append p s r)

kind-kept : (b : Bool) (c : ℕ) → kind b c ≡ kept → is_line_break c ≡ false
unfolding kind is_line_break
kind-kept b c h = ground arith

one_of : (k : Kind) → (k ≡ skipped) ⊎ (k ≡ broken) ⊎ (k ≡ kept)
one_of skipped = inl refl
one_of broken = inr (inl refl)
one_of kept = inr (inr refl)

kind_cases : (b : Bool) (c : ℕ) → (kind b c ≡ skipped) ⊎ (kind b c ≡ broken) ⊎ (kind b c ≡ kept)
kind_cases b c = one_of (kind b c)

split_from-one_line :
    (b : Bool) (line s : Text)
    → is_one_line line ≡ true
    → all is_one_line (split_from b line s) ≡ true
unfolding split_from
split_from-one_line b line [] h = ground arith
split_from-one_line b line (c ∷ s) h = elim (kind_cases b c) [
  | inl e ↦ rw (e, all) (split_from-one_line false line s h)
  | inr (inl e) ↦ rw (e, h, all) (split_from-one_line (c == 13) [] s refl)
  | inr (inr e) ↦
      rw (e, all)
        (split_from-one_line false (line ++ c ∷ []) s
          (ground (arith, any-append is_line_break line (c ∷ []), kind-kept b c e)))
]

-- No line of a text has a line break in it.
pub split_lines-one_line : (s : Text) → all is_one_line (split_lines s) ≡ true
unfolding split_lines
split_lines-one_line s = split_from-one_line false [] s refl
