-- ===== src/Snapshots.antt =====
-- Native Proxmox VE snapshots (custom_components/hubinet_ops/packages/snapshots.py): names,
-- listings and task states. What the Proxmox API returns is kept as far as the code reads it.
pub mod Laws
pub mod Examples
use hubinet_ops_next.Prelude.{
  ℕ, Bool, true, false, not, ◌&&◌, ◌||◌, Option, none, some, List, [], ◌∷◌, Text, codes, text_eq,
  starts_with, ◌==◌, ltb, leb, if◌then◌else◌, length, take, all, any,
}
use hubinet_ops_next.Prelude.Results.{Result, ok, err}

-- `\d` of a regular expression and `str.isspace`, which Python takes from the Unicode tables.
pub record Unicode : Type 0 where
  pub is_digit : ℕ → Bool
  pub is_space : ℕ → Bool

-- A value of a mapping: missing, a string, or another one with its truth.
pub data Field : Type 0 where
  missing : Field
  text : Text → Field
  other : Bool → Field

-- A row of a snapshot listing, by its `name` and its `snapstate`.
pub data Row : Type 0 where
  row : Field → Field → Row
  no_mapping : Row

pub data Listing : Type 0 where
  rows : List Row → Listing
  no_sequence : Listing

-- A task payload, by its `status` and its `exitstatus`.
pub data Payload : Type 0 where
  task : Field → Field → Payload
  no_mapping : Payload

-- `SnapshotTaskState`
pub data TaskState : Type 0 where
  running success failed : TaskState

-- `SnapshotError`
pub record SnapshotError : Type 0 where
  pub message : Text
  pub may_exist : Bool
  pub terminal_failure : Bool

-- `bool(value)`
abbrev pub truth : Field → Bool
truth missing = false
truth (text []) = false
truth (text (c ∷ s)) = true
truth (other b) = b

abbrev pub field_is : Text → Field → Bool
field_is t missing = false
field_is t (text s) = text_eq s t
field_is t (other b) = false

abbrev pub is_text : Field → Bool
is_text missing = false
is_text (text s) = true
is_text (other b) = false

abbrev pub prefix : Text
prefix = codes "hubinet-preupd-"

abbrev pub name_max_length : ℕ
name_max_length = 40

unfoldable pub is_letter : ℕ → Bool
is_letter c = (leb b'A' c && leb c b'Z') || (leb b'a' c && leb c b'z')

unfoldable pub is_name_char : ℕ → Bool
unfolding is_letter
is_name_char c = is_letter c || (leb b'0' c && leb c b'9') || (c == b'_' || c == b'-')

-- `[A-Za-z][A-Za-z0-9_-]+`, over the whole text
unfoldable pub name_matches : Text → Bool
unfolding is_letter is_name_char
name_matches [] = false
name_matches (c ∷ []) = false
name_matches (c ∷ d ∷ s) = is_letter c && all is_name_char (d ∷ s)

-- Whether `validate_snapshot_name` returns.
unfoldable pub valid_name : Text → Bool
valid_name s =
    leb 2 (length s)
    && leb (length s) name_max_length
    && name_matches s
    && not (text_eq s (codes "current") || text_eq s (codes "vzdump"))

-- A row that is a mapping with a string for its name.
abbrev pub has_name : Row → Bool
has_name (row n s) = is_text n
has_name no_mapping = false

abbrev pub named : Text → Row → Bool
named t (row n s) = field_is t n
named t no_mapping = false

abbrev pub snapstate : Row → Field
snapstate (row n s) = s
snapstate no_mapping = missing

unfoldable pub named_rows : Text → List Row → List Row
named_rows t [] = []
named_rows t (r ∷ rs) = let rest = named_rows t rs in if named t r then r ∷ rest else rest

-- One row, and it has no transient state.
unfoldable pub only_complete : List Row → Bool
only_complete [] = false
only_complete (r ∷ []) = not (truth (snapstate r))
only_complete (r ∷ s ∷ rs) = false

-- `snapshot_is_complete` and `snapshot_is_absent`, for a valid name
unfoldable pub is_complete : Listing → Text → Bool
unfolding named_rows only_complete
is_complete no_sequence name = false
is_complete (rows rs) name = all has_name rs && only_complete (named_rows name rs)

unfoldable pub is_absent : Listing → Text → Bool
is_absent no_sequence name = false
is_absent (rows rs) name = all has_name rs && not (any (named name) rs)

-- The order of Python strings.
unfoldable pub text_lt : Text → Text → Bool
text_lt s [] = false
text_lt [] (d ∷ t) = true
text_lt (c ∷ s) (d ∷ t) = ltb c d || (c == d && text_lt s t)

-- `sorted` of a set: a name goes to its place, once.
unfoldable pub insert_name : Text → List Text → List Text
insert_name s [] = s ∷ []
insert_name s (t ∷ ts) =
    if text_eq s t then t ∷ ts else if text_lt s t then s ∷ t ∷ ts else t ∷ insert_name s ts

abbrev pub retains : Text → Bool
retains s = not (text_eq s (codes "current")) && starts_with prefix s

unfoldable pub retained_names : List Row → List Text
unfolding insert_name
retained_names [] = []
retained_names (row (text s) t ∷ rs) =
    let rest = retained_names rs in if retains s then insert_name s rest else rest
retained_names (_ ∷ rs) = retained_names rs

-- `RetainedSnapshotSummary`
pub record RetainedSummary : Type 0 where
  pub total_count : ℕ
  pub names : List Text

abbrev pub malformed_listing : SnapshotError
malformed_listing = record {
  message = codes "PVE returned a malformed snapshot listing";
  may_exist = false;
  terminal_failure = false;
}

-- `retained_snapshot_summary`
unfoldable pub retained_summary : ℕ → Listing → Result SnapshotError RetainedSummary
retained_summary limit no_sequence = err malformed_listing
retained_summary limit (rows rs) =
    if all has_name rs
    then ok (record {
      total_count = length (retained_names rs);
      names = take limit (retained_names rs);
    })
    else err malformed_listing

-- `WARNINGS: \d+`, over the whole text
unfoldable pub after_prefix : Text → Text → Option Text
after_prefix [] s = some s
after_prefix (p ∷ ps) [] = none
after_prefix (p ∷ ps) (c ∷ s) = let rest = after_prefix ps s in if p == c then rest else none

module _ (u : Unicode) where
  unfoldable pub is_number : Text → Bool
  is_number [] = false
  is_number (c ∷ s) = all u.is_digit (c ∷ s)

  unfoldable pub is_warning : Text → Bool
  unfolding is_number after_prefix
  is_warning s = elim (after_prefix (codes "WARNINGS: ") s) [ none ↦ false | some d ↦ is_number d ]

  abbrev success_exit : Field → Bool
  success_exit missing = false
  success_exit (text s) = text_eq s (codes "OK") || is_warning s
  success_exit (other b) = false

  -- `parse_task_status`
  unfoldable pub parse_task_status : Payload → TaskState
  parse_task_status no_mapping = TaskState.failed
  parse_task_status (task status exit) =
      if field_is (codes "running") status
      then TaskState.running
      else if not (field_is (codes "stopped") status)
      then TaskState.failed
      else if success_exit exit
      then TaskState.success
      else TaskState.failed

  abbrev bad_upid_char : ℕ → Bool
  bad_upid_char c = u.is_space c || ltb c 32

  -- `_require_upid`, with the error's `may_exist`
  unfoldable pub require_upid : Bool → Field → Result SnapshotError Text
  require_upid may (text s) =
      if not (starts_with (codes "UPID:") s) || ltb 1024 (length s) || any bad_upid_char s
      then err (record {
        message = codes "PVE snapshot operation returned an invalid task ID";
        may_exist = may;
        terminal_failure = false;
      })
      else ok s
  require_upid may _ = err (record {
    message = codes "PVE snapshot operation returned an invalid task ID";
    may_exist = may;
    terminal_failure = false;
  })
