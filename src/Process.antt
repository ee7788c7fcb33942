-- ===== src/Process.antt =====
-- The coroutines of Update and Autoremove as processes over the outside world
-- (custom_components/hubinet_ops/packages/manager.py and snapshots.py): each wait is an event, and
-- the world answers it by any function of the events so far. Cancellation is an answer too.
pub mod Snapshot
pub mod Run
pub mod Plan
pub mod Outcome
pub mod History
pub mod Hoare
pub mod Stage
pub mod Waits
pub mod Safety
pub mod Stages
pub mod Creation
pub mod Runs
pub mod Ended
pub mod Attempt
pub mod Polls
pub mod Examples
use hubinet_ops_next.Prelude.{
  ℕ, Bool, true, false, Option, none, some, List, [], ◌∷◌, ◌++◌, Text, if◌then◌else◌, String, codes,
}
use hubinet_ops_next.Prelude.Results.{Result, ok, err}
use hubinet_ops_next.Models.{UpdateError, PendingPackage, RemovablePackage, PackageId}
use hubinet_ops_next.Snapshots.{Field, Listing, Payload, SnapshotError, RetainedSummary}

-- What a coroutine waits for or does outside.
pub data Event : Type 0 where
  planned mutated status_read pinged listed slept : Event
  create_submitted delete_submitted polled : Text → Event
  retained_notified : RetainedSummary → Event

-- A call through proxmoxer or the event loop.
pub data Reply {ℓ} (A : Type ℓ) : Type ℓ where
  returned : A → Reply A
  raised : Reply A
  cancelled : Reply A

-- A call through the package transport: it may raise `PackageUpdateError`.
pub data Transported {ℓ} (A : Type ℓ) : Type ℓ where
  returned : A → Transported A
  refused : UpdateError → Transported A
  crashed : Transported A
  cancelled : Transported A

-- The submission of a snapshot: the call is entered, which is when it is marked, and replies; or
-- it raises before that, or is cancelled.
pub data Submission : Type 0 where
  entered : Reply Field → Submission
  not_entered : Submission
  not_entered_cancelled : Submission

-- `PackageMutationResult`: the inventories before and after, as lists of rows without repeats.
pub record Mutation : Type 0 where
  pub before : List (PackageId × Text)
  pub after : List (PackageId × Text)

-- The answers of the world. `P` is the kind of package that the plan of the run is made of.
pub record World (P : Type 0) : Type 0 where
  pub plan : List Event → Transported (List P)
  pub mutate : List Event → Transported Mutation
  pub ping : List Event → Transported Bool
  pub status : List Event → Reply Field
  pub list : List Event → Reply Listing
  pub submit : List Event → Submission
  pub delete : List Event → Reply Field
  pub poll : List Event → Reply Payload
  pub sleep : List Event → Reply (Unit {0})
  -- the name of `generate_snapshot_name`, from the clock and the random suffix
  pub new_name : List Event → Text

-- What leaves a coroutine other than by its return.
pub data Failure : Type 0 where
  update_failed : UpdateError → Failure
  snapshot_failed : SnapshotError → Failure
  cancelled : Failure
  unexpected : Failure

-- The local variables that the handlers read, and the events so far.
pub record Progress : Type 0 where
  pub events : List Event
  pub snapshot_name : Option Text
  pub snapshot_started : Bool
  pub snapshot_submitted : Bool
  pub snapshot_ready : Bool
  pub mutation_started : Bool
  pub changed_count : Option ℕ

abbrev pub no_progress : Progress
no_progress = record {
  events = [];
  snapshot_name = none;
  snapshot_started = false;
  snapshot_submitted = false;
  snapshot_ready = false;
  mutation_started = false;
  changed_count = none;
}

abbrev pub Proc : Type 0 → Type 0
Proc A = Progress → Result Failure A × Progress

abbrev pub proceed : {A B : Type 0} → Result Failure A → (A → Proc B) → Proc B
proceed (ok a) f p = f a p
proceed (err e) f p = (err e, p)

infixl 5 ◌>>=◌ ◌>>◌
unfoldable pub ◌>>=◌ : {A B : Type 0} → Proc A → (A → Proc B) → Proc B
◌>>=◌ m f p = proceed (m p).0 f (m p).1

abbrev pub ◌>>◌ : {A B : Type 0} → Proc A → Proc B → Proc B
m >> n = m >>= λ _. n

abbrev pub pure : {A : Type 0} → A → Proc A
pure a p = (ok a, p)

abbrev pub fail : {A : Type 0} → Failure → Proc A
fail e p = (err e, p)

abbrev pub happen : Event → Progress → Progress
happen e p = record p { events = p.events ++ e ∷ [] }

abbrev pub note : Event → Proc (Unit {0})
note e p = (ok tt, happen e p)

abbrev pub replied : {A : Type 0} → Failure → Reply A → Result Failure A
replied e (returned a) = ok a
replied e raised = err e
replied e cancelled = err cancelled

-- `await executor(...)` under `except Exception`, which raises `e`
unfoldable pub ask : {A : Type 0} → Event → (List Event → Reply A) → Failure → Proc A
ask ev answer e p = (replied e (answer p.events), happen ev p)

abbrev pub transported : {A : Type 0} → Transported A → Result Failure A
transported (returned a) = ok a
transported (refused e) = err (update_failed e)
transported crashed = err unexpected
transported cancelled = err cancelled

-- `await self._async_transport(...)`
unfoldable pub transport : {A : Type 0} → Event → (List Event → Transported A) → Proc A
transport ev answer p = (transported (answer p.events), happen ev p)

abbrev pub snapshot_error : String → Bool → Bool → Failure
snapshot_error s may terminal =
    snapshot_failed (record { message = codes s; may_exist = may; terminal_failure = terminal })

-- `raise` of a snapshot error where a result has one.
abbrev pub of_result : {A : Type 0} → Result SnapshotError A → Result Failure A
of_result (ok a) = ok a
of_result (err e) = err (snapshot_failed e)

abbrev pub lift : {A : Type 0} → Result SnapshotError A → Proc A
lift r p = (of_result r, p)

-- `if not condition: raise`
abbrev pub require : Bool → Failure → Proc (Unit {0})
require true e = pure tt
require false e = fail e
