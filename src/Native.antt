-- ===== src/Native.antt =====
-- The native snapshot adapter (custom_components/hubinet_ops/snapshots.py): names and listings.
pub mod Names
pub mod Listing
pub mod Task
pub mod Submit
pub mod Restore
pub mod Reserve
pub mod Sequence
pub mod Honest
pub mod Proven
pub mod Delete
pub mod Examples
use hubinet_ops_next.Prelude.{
  ℕ, suc, ◌+◌, Bool, true, false, not, ◌&&◌, ◌||◌, Option, none, some, List, [], ◌∷◌, Text, codes,
  text_eq, ltb, leb, ◌==◌, if◌then◌else◌, length, all, any,
}
use hubinet_ops_next.Prelude.Results.{Result, ok, err}
use hubinet_ops_next.Snapshots.{Field, text, truth, is_letter, is_name_char, text_lt}

-- `[A-Za-z][A-Za-z0-9_-]{1,39}`, over the whole text
unfoldable pub matches_name : Text → Bool
matches_name [] = false
matches_name (c ∷ s) =
    is_letter c && (all is_name_char s && (leb 1 (length s) && leb (length s) 39))

-- `PVE_SNAPSHOT_NAME_MAX_LENGTH`
abbrev pub max_length : ℕ
max_length = 40

-- `snapshot_name_is_eligible`, of a text
unfoldable pub is_eligible : Text → Bool
unfolding matches_name
is_eligible s =
    not (text_eq s (codes "current") || text_eq s (codes "vzdump"))
    && (leb (length s) max_length && matches_name s)

-- An integer, by its sign.
pub data ℤ : Type 0 where
  pos negsuc : ℕ → ℤ

unfoldable pub int_lt : ℤ → ℤ → Bool
int_lt (pos a) (pos b) = ltb a b
int_lt (pos a) (negsuc b) = false
int_lt (negsuc a) (pos b) = true
int_lt (negsuc a) (negsuc b) = ltb b a

-- A row of the listing, by its `name`, its `snapstate` and its `snaptime`, where this is an `int`.
pub data Row : Type 0 where
  row : Field → Field → Option ℤ → Row
  no_mapping : Row

pub data Rows : Type 0 where
  rows : List Row → Rows
  no_sequence : Rows

-- `NativeSnapshot`
pub record NativeSnapshot : Type 0 where
  pub name : Text
  pub snaptime : ℤ

-- The order of the keys `(-snaptime, name)`.
unfoldable pub is_before : NativeSnapshot → NativeSnapshot → Bool
unfolding int_lt text_lt
is_before a b =
    int_lt b.snaptime a.snaptime || (not (int_lt a.snaptime b.snaptime) && text_lt a.name b.name)

unfoldable pub insert_choice : NativeSnapshot → List NativeSnapshot → List NativeSnapshot
unfolding is_before
insert_choice a [] = a ∷ []
insert_choice a (b ∷ l) =
    let rest = insert_choice a l in if is_before b a then b ∷ rest else a ∷ b ∷ l

unfoldable pub sorted_choices : List NativeSnapshot → List NativeSnapshot
unfolding insert_choice
sorted_choices [] = []
sorted_choices (a ∷ l) = insert_choice a (sorted_choices l)

abbrev pub time_of : Option ℤ → ℤ
time_of none = pos 0
time_of (some t) = t

-- The rows that are a choice.
unfoldable pub choices : List Row → List NativeSnapshot
unfolding is_eligible
choices [] = []
choices (row (text s) state time ∷ rs) =
    let rest = choices rs in
    if not (is_eligible s) || truth state
    then rest
    else record { name = s; snaptime = time_of time } ∷ rest
choices (_ ∷ rs) = choices rs

-- `eligible_snapshots`, with the message of its error
unfoldable pub eligible_snapshots : Rows → Result Text (List NativeSnapshot)
unfolding choices sorted_choices
eligible_snapshots no_sequence = err (codes "PVE returned a malformed snapshot listing")
eligible_snapshots (rows rs) = ok (sorted_choices (choices rs))

-- What a wait comes to: an answer, an exception, or the cancellation of the task.
pub data Waited {ℓ} (A : Type ℓ) : Type ℓ where
  answered : A → Waited A
  raised : Text → Waited A
  cancelled : Waited A

-- `async_list_snapshots`: every exception of the call is a `SnapshotListError`.
unfoldable pub list_native : Waited Rows → Waited (Result Text (List NativeSnapshot))
unfolding eligible_snapshots
list_native (answered rs) = answered (eligible_snapshots rs)
list_native (raised e) = answered (err (codes "could not list native PVE snapshots"))
list_native cancelled = cancelled

abbrev found : Text → Result Text (List NativeSnapshot) → Result Text Bool
found name (err e) = err e
found name (ok l) = ok (any (λ (s : NativeSnapshot). text_eq s.name name) l)

-- `async_validate_snapshot`: an error is a `SnapshotListError`.
abbrev pub validated : Text → Waited (Result Text (List NativeSnapshot)) → Waited (Result Text Bool)
validated name (answered r) = answered (found name r)
validated name (raised e) = raised e
validated name cancelled = cancelled

unfoldable pub validate_snapshot : Text → Waited Rows → Waited (Result Text Bool)
unfolding is_eligible list_native
validate_snapshot name listing =
    if not (is_eligible name) then answered (ok false) else validated name (list_native listing)
