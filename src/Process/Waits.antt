-- ===== src/Process/Waits.antt =====
-- Waiting for a task, creating and deleting a snapshot: on every branch
-- (custom_components/hubinet_ops/packages/snapshots.py).
use hubinet_ops_next.Prelude.{
  ℕ, zero, suc, ◌≡◌, refl, ◌⊎◌, inl, inr, true, false, List, Text, Bool-cases,
}
use hubinet_ops_next.Prelude.Results.{Result, ok, err}
use hubinet_ops_next.Snapshots.{
  Unicode, Listing, Payload, TaskState, SnapshotError, is_absent, parse_task_status,
}
use hubinet_ops_next.Process.{
  Event, listed, slept, polled, Reply, World, Failure, update_failed, snapshot_failed, unexpected,
  Progress, Proc, ◌>>=◌, happen, replied, ask, snapshot_error,
}
use hubinet_ops_next.Process.History.{After, After-now, Quiet, Lacks}
use hubinet_ops_next.Process.Hoare.{Ends, Ends-if, Triple, Triple-bind}
use hubinet_ops_next.Process.Stage.{Triple-less, Triple-ask}
use hubinet_ops_next.Process.Snapshot.{
  after_state, polled_state, wait_for_task, withdraw, after_task, wait_created,
}

-- A wait fails with an error that says that the snapshot may exist, or is cut off.
abbrev pub WaitFail : Failure → Type 0
WaitFail (update_failed e) = ⊥
WaitFail (snapshot_failed e) = e.may_exist ≡ true
WaitFail Failure.cancelled = Unit
WaitFail unexpected = Unit

module _ {P : Type 0} (u : Unicode) (w : World P) (Sent : List Event → Type 0) where
  -- A creation that was submitted fails with an error that says that the snapshot may exist, or a
  -- listing after the submission lacked it.
  abbrev pub CreateFail : Text → Failure → Progress → Type 0
  CreateFail n (update_failed e) p = ⊥
  CreateFail n (snapshot_failed e) p =
      (e.may_exist ≡ true) ⊎ After (λ es. Sent es × Lacks u w n es) listed p.events
  CreateFail n Failure.cancelled p = Unit
  CreateFail n unexpected p = Unit

  module _ (Here : Progress → Type 0)
      (move : (ev : Event) → Quiet ev → (p : Progress) → Here p → Here (happen ev p))
      (know : (p : Progress) → Here p → Sent p.events) where
    after_state_ends :
        (next : Proc (Unit {0})) (x : Payload) (s : TaskState)
        → Triple Here next (λ _. Here) (λ f p. Here p × WaitFail f)
        → Triple Here (after_state next x s) (λ _. Here) (λ f p. Here p × WaitFail f)
    unfolding after_state
    after_state_ends next x TaskState.success k = record { at = λ p h. h }
    after_state_ends next x TaskState.failed k = record { at = λ p h. (h, refl) }
    after_state_ends next x TaskState.running k = k

    poll_ends :
        (upid : Text) (next : Proc (Unit {0}))
        → Triple Here next (λ _. Here) (λ f p. Here p × WaitFail f)
        → Triple Here
            (ask
                (polled upid)
                w.poll
                (snapshot_error "could not read PVE snapshot task status" true false)
              >>= polled_state u w next)
            (λ _. Here)
            (λ f p. Here p × WaitFail f)
    unfolding polled_state
    poll_ends upid next k =
        Triple-bind
          (Triple-ask Here _ move (λ p h. (h, tt)) Sent know (polled upid) tt w.poll _
            (λ p h. (h, refl)))
          λ x. Triple-less λ _. after_state_ends next x (parse_task_status u x) k

    -- Waiting keeps the stage, and a snapshot error of it says that the snapshot may exist.
    pub wait_ends :
        (upid : Text) (n : ℕ)
        → Triple Here (wait_for_task u w upid n) (λ _. Here) (λ f p. Here p × WaitFail f)
    unfolding wait_for_task
    wait_ends upid zero = record { at = λ p h. (h, refl) }
    wait_ends upid (suc zero) = poll_ends upid _ (record { at = λ p h. (h, refl) })
    wait_ends upid (suc (suc n)) = poll_ends upid _ (
        Triple-bind
          (Triple-ask Here _ move (λ p h. (h, tt)) Sent know slept tt w.sleep unexpected
            (λ p h. (h, tt)))
          λ x. Triple-less λ _. wait_ends upid (suc n))

    withdraw_fails :
        (n : Text) (e : SnapshotError) (p : Progress) (r : Reply Listing)
        → Sent p.events
        → e.may_exist ≡ true
        → w.list p.events ≡ r
        → CreateFail n
            (withdraw n e
              (replied (snapshot_error "could not list native PVE snapshots" false false) r))
            (happen listed p)
    withdraw_fails n e p (Reply.returned l) s m q = elim (Bool-cases (is_absent l n)) [
      | inl a ↦ rw a (inr (After-now listed p.events (s, (l, q, a))))
      | inr a ↦ rw a (inl m)
    ]
    withdraw_fails n e p Reply.raised s m q = inl m
    withdraw_fails n e p Reply.cancelled s m q = tt

    after_task-Ends :
        (n : Text) (r : Result Failure (Unit {0})) (p : Progress)
        → Ends (λ _. Here) (λ f q. Here q × WaitFail f) r p
        → Ends
            (λ _. Here)
            (λ f q. Here q × CreateFail n f q)
            (after_task u w n r p).0
            (after_task u w n r p).1
    unfolding after_task
    after_task-Ends n (ok x) p h = h
    after_task-Ends n (err (update_failed e)) p (h, k) = absurd k
    after_task-Ends n (err (snapshot_failed e)) p (h, k) =
        Ends-if (λ _. Here) (λ f q. Here q × CreateFail n f q) e.terminal_failure _
          (err (snapshot_failed e), p)
          (move listed tt p h, withdraw_fails n e p (w.list p.events) (know p h) k refl) (h, inl k)
    after_task-Ends n (err Failure.cancelled) p (h, k) = (h, tt)
    after_task-Ends n (err unexpected) p (h, k) = (h, tt)

    pub wait_created_ends :
        (n upid : Text) (polls : ℕ)
        → Triple Here (wait_created u w n upid polls) (λ _. Here) (λ f q. Here q × CreateFail n f q)
    unfolding wait_created
    wait_created_ends n upid polls = record {
      at = λ p h. after_task-Ends n _ _ ((wait_ends upid polls).at p h);
    }
