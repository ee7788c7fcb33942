-- ===== src/Process/Polls.antt =====
-- How often a snapshot task is polled
-- (`_async_wait_for_task` of custom_components/hubinet_ops/packages/snapshots.py).
use hubinet_ops_next.Prelude.{ℕ, zero, suc, ◌+◌, ◌≤◌, ◌≡◌, List, [], ◌∷◌, ◌++◌, Text, arith}
use hubinet_ops_next.Snapshots.{Unicode, Payload, TaskState, parse_task_status}
use hubinet_ops_next.Process.{
  Event, polled, slept, Reply, World, Failure, unexpected, Progress, Proc, ◌>>=◌, proceed, ask,
  happen, replied,
}
use hubinet_ops_next.Process.Snapshot.{wait_for_task, polled_state, after_state}

abbrev pub is_poll : Event → ℕ
is_poll (polled upid) = 1
is_poll _ = 0

-- The number of polls among the events.
unfoldable pub polls : List Event → ℕ
polls [] = 0
polls (e ∷ es) = is_poll e + polls es

polls-append : (es : List Event) (e : Event) → polls (es ++ e ∷ []) ≡ polls es + is_poll e
unfolding polls
polls-append [] e = omega arith
polls-append (x ∷ es) e = omega (arith, polls-append es e)

-- A process that polls at most `n` times.
abbrev Polls : ℕ → Proc (Unit {0}) → Type 0
Polls n m = (p : Progress) → polls (m p).1.events ≤ polls p.events + n

module _ {P : Type 0} (u : Unicode) (w : World P) where
  after_state-Polls :
      (n : ℕ) (next : Proc (Unit {0})) (x : Payload) (s : TaskState)
      → Polls n next
      → Polls n (after_state next x s)
  unfolding after_state
  after_state-Polls n next x TaskState.success k p = omega arith
  after_state-Polls n next x TaskState.failed k p = omega arith
  after_state-Polls n next x TaskState.running k p = k p

  -- A call that is not answered ends the wait.
  proceed-Polls :
      {A : Type 0} (n : ℕ) (ev : Event) (f : Failure) (r : Reply A) (next : A → Proc (Unit {0}))
      (p : Progress)
      → ((a : A) → Polls n (next a))
      → polls (proceed (replied f r) next (happen ev p)).1.events
        ≤ polls p.events + (is_poll ev + n)
  proceed-Polls n ev f (Reply.returned a) next p k =
      omega (arith, k a (happen ev p), polls-append p.events ev)
  proceed-Polls n ev f Reply.raised next p k = omega (arith, polls-append p.events ev)
  proceed-Polls n ev f Reply.cancelled next p k = omega (arith, polls-append p.events ev)

  ask-Polls :
      {A : Type 0} (n c : ℕ) (ev : Event) (answer : List Event → Reply A) (f : Failure)
      (next : A → Proc (Unit {0}))
      → is_poll ev + n ≤ c
      → ((a : A) → Polls n (next a))
      → Polls c (ask ev answer f >>= next)
  unfolding ask ◌>>=◌
  ask-Polls n c ev answer f next h k p =
      omega (arith, h, proceed-Polls n ev f (answer p.events) next p k)

  -- The rest of the loop, after a sleep.
  slept-Polls :
      (n : ℕ) (next : Proc (Unit {0}))
      → Polls n next
      → Polls n (ask slept w.sleep unexpected >>= λ _. next)
  slept-Polls n next k = ask-Polls n n slept w.sleep unexpected (λ _. next) (omega arith) (λ _. k)

  -- However the task fares, waiting for it over `n` polls asks for its status at most `n` times.
  pub wait_for_task-polls :
      (upid : Text) (n : ℕ) (p : Progress)
      → polls (wait_for_task u w upid n p).1.events ≤ polls p.events + n
  unfolding wait_for_task polled_state
  wait_for_task-polls upid zero p = omega arith
  wait_for_task-polls upid (suc zero) p =
      ask-Polls 0 1 (polled upid) w.poll _ (polled_state u w (wait_for_task u w upid zero))
        (omega arith)
        (λ x.
          after_state-Polls 0 (wait_for_task u w upid zero) x (parse_task_status u x)
            (wait_for_task-polls upid zero))
        p
  wait_for_task-polls upid (suc (suc n)) p =
      let next : Proc (Unit {0}) =
        ask slept w.sleep unexpected >>= λ _. wait_for_task u w upid (suc n) in
      ask-Polls (suc n) (suc (suc n)) (polled upid) w.poll _ (polled_state u w next) (omega arith)
        (λ x.
          after_state-Polls (suc n) next x (parse_task_status u x) (
            slept-Polls (suc n) (wait_for_task u w upid (suc n))
              (wait_for_task-polls upid (suc n))))
        p
