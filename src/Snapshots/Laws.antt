-- ===== src/Snapshots/Laws.antt =====
-- Listings of snapshots: what is shown complete or absent, and the retained names
-- (custom_components/hubinet_ops/packages/snapshots.py).
use hubinet_ops_next.Prelude.{
  ◌≡◌, ap, sym, refl, inl, inr, Bool, true, false, ◌&&◌, ◌||◌, List, [], ◌∷◌, arith, Text, text_eq,
  text_eq_iff, if◌then◌else◌, any, Bool-cases,
}
use hubinet_ops_next.Snapshots.{
  missing, text, other, Row, row, Listing, rows, no_sequence, named, named_rows, only_complete,
  is_complete, is_absent, text_lt, insert_name, retains, retained_names,
}

-- The order of texts is total.
pub text_lt_total : (s t : Text) → text_eq s t ≡ false → text_lt s t ≡ false → text_lt t s ≡ true
unfolding text_eq text_lt
text_lt_total [] [] = ground arith
text_lt_total [] (d ∷ t) = ground arith
text_lt_total (c ∷ s) [] = ground arith
text_lt_total (c ∷ s) (d ∷ t) = ground (arith, text_lt_total s t)

abbrev Above : Text → List Text → Type 0
Above t [] = Unit
Above t (x ∷ l) = text_lt t x ≡ true

-- Each name is below the next one.
abbrev pub IsSorted : List Text → Type 0
IsSorted [] = Unit
IsSorted (x ∷ l) = Above x l × IsSorted l

insert_name-Above :
    (t s : Text) (l : List Text) → Above t l → text_lt t s ≡ true → Above t (insert_name s l)
unfolding insert_name
insert_name-Above t s [] h k = k
insert_name-Above t s (x ∷ l) h k = elim (Bool-cases (text_eq s x)) [
  | inl e ↦ rw e h
  | inr e ↦ elim (Bool-cases (text_lt s x)) [ inl f ↦ rw (e, f) k | inr f ↦ rw (e, f) h ]
]

insert_name-IsSorted : (s : Text) (l : List Text) → IsSorted l → IsSorted (insert_name s l)
unfolding insert_name
insert_name-IsSorted s [] h = (tt, tt)
insert_name-IsSorted s (x ∷ l) (h, k) = elim (Bool-cases (text_eq s x)) [
  | inl e ↦ rw e (h, k)
  | inr e ↦ elim (Bool-cases (text_lt s x)) [
    | inl f ↦ rw (e, f) (f, (h, k))
    | inr f ↦
        rw (e, f) (insert_name-Above x s l h (text_lt_total s x e f), insert_name-IsSorted s l k)
  ]
]

-- The retained names come in strictly increasing order, so none is named twice.
pub retained_names-IsSorted : (rs : List Row) → IsSorted (retained_names rs)
unfolding retained_names
retained_names-IsSorted [] = tt
retained_names-IsSorted (row (text s) t ∷ rs) = elim (Bool-cases (retains s)) [
  | inl e ↦ rw e (insert_name-IsSorted s (retained_names rs) (retained_names-IsSorted rs))
  | inr e ↦ rw e (retained_names-IsSorted rs)
]
retained_names-IsSorted (row missing t ∷ rs) = retained_names-IsSorted rs
retained_names-IsSorted (row (other b) t ∷ rs) = retained_names-IsSorted rs
retained_names-IsSorted (Row.no_mapping ∷ rs) = retained_names-IsSorted rs

any-insert_name :
    (x s : Text) (l : List Text)
    → any (text_eq x) (insert_name s l) ≡ (text_eq x s || any (text_eq x) l)
unfolding insert_name
any-insert_name x s [] = refl
any-insert_name x s (t ∷ l) =
    ground (arith, any-insert_name x s l, text_eq_iff s t, text_eq_iff x s, text_eq_iff x t)

text_eq_sym : (s t : Text) → text_eq s t ≡ text_eq t s
text_eq_sym s t = ground (arith, text_eq_iff s t, text_eq_iff t s)

retains-text_eq : (s t : Text) → text_eq s t ≡ true → retains s ≡ retains t
retains-text_eq s t h = ap retains ((text_eq_iff s t).0 h)

retained_step :
    (x s : Text) (l : List Text) (c : Bool)
    → any (text_eq x) l ≡ (c && retains x)
    → any (text_eq x) (if retains s then insert_name s l else l) ≡ ((text_eq s x || c) && retains x)
retained_step x s l c h = elim (Bool-cases (text_eq s x)) [
  | inl e ↦ elim (Bool-cases (retains s)) [
    | inl f ↦ rw (f, any-insert_name, text_eq_sym x s, e) (sym (rw (← retains-text_eq s x e) f))
    | inr f ↦ rw (f, e, h, ← retains-text_eq s x e) (ground (arith, f))
  ]
  | inr e ↦ elim (Bool-cases (retains s)) [
    | inl f ↦ rw (f, any-insert_name, text_eq_sym x s, e) h
    | inr f ↦ rw (f, e) h
  ]
]

-- A name is retained exactly when a row of the listing has it, it has the prefix of the safety
-- snapshots, and it is not that of the current state.
pub any-retained_names :
    (x : Text) (rs : List Row)
    → any (text_eq x) (retained_names rs) ≡ (any (named x) rs && retains x)
unfolding retained_names
any-retained_names x [] = refl
any-retained_names x (row (text s) t ∷ rs) =
    retained_step x s (retained_names rs) (any (named x) rs) (any-retained_names x rs)
any-retained_names x (row missing t ∷ rs) = any-retained_names x rs
any-retained_names x (row (other b) t ∷ rs) = any-retained_names x rs
any-retained_names x (Row.no_mapping ∷ rs) = any-retained_names x rs

named_rows-none : (n : Text) (rs : List Row) → any (named n) rs ≡ false → named_rows n rs ≡ []
unfolding named_rows
named_rows-none n [] h = refl
named_rows-none n (r ∷ rs) h = ground (arith, named_rows-none n rs)

-- No listing shows a snapshot both complete and absent: a run never takes one answer for both.
pub is_complete-absent : (l : Listing) (n : Text) → is_complete l n ≡ true → is_absent l n ≡ false
unfolding is_complete is_absent only_complete
is_complete-absent no_sequence n h = refl
is_complete-absent (rows rs) n h = elim (Bool-cases (any (named n) rs)) [
  | inl e ↦ ground (arith, e)
  | inr e ↦ ground (arith, e, named_rows-none n rs e)
]
