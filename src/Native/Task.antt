-- ===== src/Native/Task.antt =====
-- The observation of a native task (custom_components/hubinet_ops/snapshots.py).
use hubinet_ops_next.Prelude.{
  ℕ, suc, zero, ◌+◌, ◌-◌, Bool, true, false, not, ◌&&◌, ◌||◌, Option, none, some, List, [], ◌∷◌,
  ◌++◌, Text, codes, text_eq, leb, ◌==◌, if◌then◌else◌, take, all, is_empty,
}
use hubinet_ops_next.Snapshots.{Field, text, missing, other, field_is, after_prefix}

-- `RestoreOutcome` and `RestoreResult`
pub data RestoreOutcome : Type 0 where
  not_started success failed uncertain : RestoreOutcome

pub record RestoreResult : Type 0 where
  pub outcome : RestoreOutcome
  pub upid : Option Text
  pub reason : Option Text

-- What `Tasks.blocking_status` comes to: an exception by its text, no answer within its time, a
-- payload by its `status` and `exitstatus` with the text of the latter, or something else.
pub data Status : Type 0 where
  failing : Text → Status
  no_answer : Status
  task : Field → Field → Text → Status
  no_mapping : Status

-- What one attempt sees: the clock before it, the status, and the clock after a failure.
pub record Look : Type 0 where
  pub now : ℕ
  pub status : Status
  pub later : ℕ

-- What the observation does: a poll with the time it is given, and a sleep.
pub data Event : Type 0 where
  polled slept : ℕ → Event

-- `_OBSERVATION_RETRY_SECONDS`
abbrev pub retry_seconds : ℕ
retry_seconds = 5

abbrev pub min : ℕ → ℕ → ℕ
min a b = if leb a b then a else b

abbrev is_digit : ℕ → Bool
is_digit c = leb b'0' c && leb c b'9'

abbrev is_number : Text → Bool
is_number s = not (is_empty s) && all is_digit s

unfoldable pub is_task_warning : Text → Bool
unfolding after_prefix
is_task_warning s = elim (after_prefix (codes "WARNINGS: ") s) [
  | none ↦ false
  | some d ↦ is_number d
]

-- `_task_succeeded`
unfoldable pub task_succeeded : Field → Bool
unfolding is_task_warning
task_succeeded missing = false
task_succeeded (text s) = text_eq s (codes "OK") || is_task_warning s
task_succeeded (other b) = false

-- `" ".join(value.split())[:500]`, with the blanks of Python's tables: the words of a text with
-- one space between them.
module _ (is_space : ℕ → Bool) where
  abbrev starts_word : Text → Bool
  starts_word [] = false
  starts_word (c ∷ s) = not (is_space c)

  abbrev space_if : Bool → Text → Text
  space_if true s = b' ' ∷ s
  space_if false s = s

  -- Behind the first word, a blank before a word stands for a space.
  unfoldable pub join_words : Bool → Text → Text
  join_words started [] = []
  join_words started (c ∷ s) = elim (is_space c) [
    | true ↦ space_if (started && starts_word s) (join_words started s)
    | false ↦ c ∷ join_words true s
  ]

  -- `_bounded_reason`, of a text
  unfoldable pub bounded_reason : Text → Text
  unfolding join_words
  bounded_reason s = take 500 (join_words false s)

  abbrev uncertain_of : Text → Text → RestoreResult
  uncertain_of upid reason = record {
    outcome = RestoreOutcome.uncertain;
    upid = some upid;
    reason = some reason;
  }

  -- A status that is no exception.
  unfoldable pub classify : Text → Field → Field → Text → RestoreResult
  unfolding task_succeeded bounded_reason
  classify upid status exit exit_text =
      if not (field_is (codes "stopped") status)
      then uncertain_of upid (codes "PVE returned malformed task status")
      else if task_succeeded exit
      then record { outcome = RestoreOutcome.success; upid = some upid; reason = none }
      else record {
        outcome = RestoreOutcome.failed;
        upid = some upid;
        reason = some (bounded_reason exit_text);
      }

  -- What follows the loop.
  unfoldable pub unobserved : Text → Option Text → RestoreResult
  unfolding bounded_reason
  unobserved upid none = uncertain_of upid (codes "PVE task observation reached its deadline")
  unobserved upid (some e) =
      uncertain_of upid (codes "could not observe PVE task status: " ++ bounded_reason e)

  -- One attempt, over its status; `next` goes on after a failure that is not the last.
  abbrev pub after_status :
      Text
      → ℕ
      → Look
      → Bool
      → (Text → RestoreResult × List Event)
      → Status
      → RestoreResult × List Event
  after_status upid deadline a last next (failing e) =
      if last || leb deadline a.later
      then (unobserved upid (some e), polled (deadline - a.now) ∷ [])
      else (
        (next e).0,
        polled (deadline - a.now) ∷ slept (min retry_seconds (deadline - a.later)) ∷ (next e).1,
      )
  after_status upid deadline a last next no_answer = (
    uncertain_of upid (codes "PVE task observation reached its deadline"),
    polled (deadline - a.now) ∷ [],
  )
  after_status upid deadline a last next (task status exit exit_text) =
      (classify upid status exit exit_text, polled (deadline - a.now) ∷ [])
  after_status upid deadline a last next no_mapping = (
    uncertain_of upid (codes "PVE returned malformed task status"),
    polled (deadline - a.now) ∷ [],
  )

  -- The loop of `_observe_task`, over the attempts that are left and the number of the next one.
  unfoldable pub observe : Text → ℕ → (ℕ → Look) → Option Text → ℕ → ℕ → RestoreResult × List Event
  unfolding classify unobserved
  observe upid deadline attempt last_error zero i = (unobserved upid last_error, [])
  observe upid deadline attempt last_error (suc left) i =
      if leb deadline (attempt i).now
      then (unobserved upid last_error, [])
      else after_status upid deadline (attempt i) (left == 0)
          (λ e. observe upid deadline attempt (some e) left (suc i)) (attempt i).status

  -- `_observe_task`, begun at a time
  unfoldable pub observe_task : Text → ℕ → ℕ → ℕ → (ℕ → Look) → RestoreResult × List Event
  unfolding observe
  observe_task upid begun timeout attempts attempt =
      observe upid (begun + timeout) attempt none attempts 0
