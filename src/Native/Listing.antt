-- ===== src/Native/Listing.antt =====
-- What a fresh listing shows of a name (custom_components/hubinet_ops/snapshots.py).
use hubinet_ops_next.Prelude.{
  ◌≡◌, refl, ap, ◌∙◌, inl, inr, Bool, true, false, not, ◌&&◌, ◌||◌, Option, List, [], ◌∷◌, arith,
  Text, text_eq, text_eq_iff, any, Bool-cases, if◌then◌else◌,
}
use hubinet_ops_next.Prelude.Results.{ok}
use hubinet_ops_next.Snapshots.{Field, text, missing, other, truth, field_is}
use hubinet_ops_next.Native.{
  is_eligible, ℤ, Row, row, rows, NativeSnapshot, insert_choice, sorted_choices, choices, time_of,
  eligible_snapshots, answered, list_native, validate_snapshot,
}

-- A row that has this name and is in no transient state.
abbrev pub shows : Text → Row → Bool
shows name (row n state time) = field_is name n && not (truth state)
shows name Row.no_mapping = false

abbrev has_name : Text → List NativeSnapshot → Bool
has_name name = any (λ (s : NativeSnapshot). text_eq s.name name)

has_name-insert_choice :
    (name : Text) (a : NativeSnapshot) (l : List NativeSnapshot)
    → has_name name (insert_choice a l) ≡ (text_eq a.name name || has_name name l)
unfolding insert_choice
has_name-insert_choice name a [] = refl
has_name-insert_choice name a (b ∷ l) = ground (arith, has_name-insert_choice name a l)

has_name-sorted_choices :
    (name : Text) (l : List NativeSnapshot) → has_name name (sorted_choices l) ≡ has_name name l
unfolding sorted_choices
has_name-sorted_choices name [] = refl
has_name-sorted_choices name (a ∷ l) =
    ground (arith, has_name-insert_choice name a (sorted_choices l), has_name-sorted_choices name l)

eligible_same : (s name : Text) → text_eq s name ≡ true → is_eligible s ≡ is_eligible name
eligible_same s name h = ap is_eligible ((text_eq_iff s name).0 h)

choice_step :
    (name s : Text) (state : Field) (time : Option ℤ) (rest : List NativeSnapshot)
    → is_eligible name ≡ true
    → has_name name (
        if not (is_eligible s) || truth state
        then rest
        else record { name = s; snaptime = time_of time } ∷ rest)
      ≡ ((text_eq s name && not (truth state)) || has_name name rest)
choice_step name s state time rest h = elim (Bool-cases (text_eq s name)) [
  | inl e ↦ ground (arith, eligible_same s name e)
  | inr e ↦ ground arith
]

has_name-choices :
    (name : Text) (rs : List Row)
    → is_eligible name ≡ true
    → has_name name (choices rs) ≡ any (shows name) rs
unfolding choices
has_name-choices name [] h = refl
has_name-choices name (row (text s) state time ∷ rs) h =
    choice_step name s state time (choices rs) h
    ∙ ap (λ b. (text_eq s name && not (truth state)) || b) (has_name-choices name rs h)
has_name-choices name (row missing state time ∷ rs) h = has_name-choices name rs h
has_name-choices name (row (other b) state time ∷ rs) h = has_name-choices name rs h
has_name-choices name (Row.no_mapping ∷ rs) h = has_name-choices name rs h

-- A name is validated against a fresh listing exactly when it is eligible and some row of the
-- listing has it and no transient state.
pub validate_snapshot-shows :
    (name : Text) (rs : List Row)
    → validate_snapshot name (answered (rows rs))
      ≡ answered (ok (is_eligible name && any (shows name) rs))
unfolding validate_snapshot list_native eligible_snapshots
validate_snapshot-shows name rs = elim (Bool-cases (is_eligible name)) [
  | inr e ↦ rw e refl
  | inl e ↦ rw e (
      ap (λ b. answered (ok b))
        (has_name-sorted_choices name (choices rs) ∙ has_name-choices name rs e))
]
