-- ===== src/Process/Runs.antt =====
-- A run with a snapshot from its start to its end
-- (custom_components/hubinet_ops/packages/manager.py).
use hubinet_ops_next.Prelude.{
  ◌≡◌, refl, ◌∙◌, [], ◌∷◌, inl, inr, Bool, true, false, none, some, List, Text, String, Bool-cases,
  ◌==◌,
}
use hubinet_ops_next.Models.{UpdateOutcome}
use hubinet_ops_next.Manager.Update.{update_error}
use hubinet_ops_next.Prelude.Results.{Result, ok, err}
use hubinet_ops_next.Snapshots.{
  Unicode, SnapshotError, RetainedSummary, retained_summary, valid_name,
}
use hubinet_ops_next.Process.{
  listed, planned, mutated, World, Failure, update_failed, snapshot_failed, unexpected, Progress,
  Event, Mutation, Transported, transport, transported, happen, pure, lift, retained_notified,
  snapshot_error, ◌>>=◌,
}
use hubinet_ops_next.Process.History.{
  After-now, After-append, After-map, Quiet, Planned, Complete, Mutated, Answered, Deleted,
  Guarded-mutated, creations-mutated,
}
use hubinet_ops_next.Process.Hoare.{Ends, Triple, Triple-bind, Triple-map}
use hubinet_ops_next.Process.Stage.{
  At, At-happen, At-known, Triple-less, Triple-ask, Triple-require, Triple-transport,
}
use hubinet_ops_next.Process.Snapshot.{list_snapshots, create_snapshot}
use hubinet_ops_next.Process.Run.{
  set_ready, set_name, notify_retained, take_snapshot, mutate, check_plan, guarded_run, max_polls,
}
use hubinet_ops_next.Process.Safety.{
  With, Nothing, Keeps-After, Keeps-Nothing, Fails, early, late, NoSnapshotError,
}
use hubinet_ops_next.Process.Stages.{Triple-liveness, Triple-delete_or_keep}
use hubinet_ops_next.Process.Creation.{Triple-create}

module _ {P : Type 0} (u : Unicode) (w : World P) (same : List P → Bool) (Matches : List P → Type 0)
    (right : (l : List P) → same l ≡ true → Matches l) where
  -- The stages before and after the fresh plan.
  abbrev Start : Progress → Type 0
  Start = At (With u w Matches (Nothing u w Matches)) none false false false

  abbrev Shown : Progress → Type 0
  Shown = At (With u w Matches (Planned u w Matches)) none false false false

  Start-happen : (ev : Event) → Quiet ev → (p : Progress) → Start p → Start (happen ev p)
  Start-happen = At-happen _ (Keeps-Nothing u w Matches) none false false false

  Shown-happen : (ev : Event) → Quiet ev → (p : Progress) → Shown p → Shown (happen ev p)
  Shown-happen = At-happen _ (Keeps-After u w Matches) none false false false

  -- The stages with a snapshot that was seen complete, and after the mutation.
  abbrev Saved : Text → Bool → Progress → Type 0
  Saved n b = At (With u w Matches (Complete u w Matches n)) (some n) true true b

  abbrev pub Changed : Text → Progress → Type 0
  Changed n = At (With u w Matches (Mutated u w Matches n)) (some n) true true true

  Changed-happen :
      (n : Text) (ev : Event) → Quiet ev → (p : Progress) → Changed n p → Changed n (happen ev p)
  Changed-happen n = At-happen _ (Keeps-After u w Matches) (some n) true true true

  Triple-check_plan :
      (message : String)
      → Triple Start (check_plan u w same message) (λ _. Shown) (Fails u w Matches)
  unfolding check_plan
  Triple-check_plan message =
      Triple-bind
        (Triple-transport Start (Fails u w Matches) Start-happen
          (early u w Matches Failure.cancelled) (Nothing u w Matches) (λ p h. tt) planned tt w.plan
          (λ e. early u w Matches (update_failed e)) (early u w Matches unexpected))
        λ fresh.
          Triple-map
            (λ a p ((h, k), q).
              At-known p h (h.known.0, After-map (λ es (s, e). (fresh, e, right fresh q)) k))
            (λ f p h. h)
            (Triple-require _ _ (same fresh) _ (λ p (h, k).
              early u w Matches (update_failed (update_error UpdateOutcome.plan_changed message)) p
                h))

  retained_ends :
      (r : Result SnapshotError RetainedSummary)
      → Triple Shown (lift r) (λ _. Shown) (Fails u w Matches)
  retained_ends (ok r) = record { at = λ p h. h }
  retained_ends (err e) = record { at = early u w Matches (snapshot_failed e) }

  notify_ends :
      (r : RetainedSummary) → Triple Shown (notify_retained r) (λ _. Shown) (Fails u w Matches)
  notify_ends r = record {
    at = λ p h. elim (Bool-cases (r.total_count == 0)) [
      | inl e ↦ rw e h
      | inr e ↦ rw e (Shown-happen (retained_notified r) tt p h)
    ];
  }

  named_ends :
      (n : Text)
      → Triple Shown
          (set_name n >>= λ _. create_snapshot u w max_polls n >>= λ _. set_ready >>= λ _. pure n)
          (λ name. Saved name false)
          (Fails u w Matches)
  named_ends n =
      Triple-bind {M = λ _. At (With u w Matches (Planned u w Matches)) (some n) false false false}
        (record {
          at = λ p h. record {
            known = h.known;
            created_eq = h.created_eq;
            name_eq = refl;
            submitted_eq = h.submitted_eq;
            ready_eq = h.ready_eq;
            mutating_eq = h.mutating_eq;
          };
        })
        λ x. Triple-bind (Triple-create u w Matches max_polls n) λ x.
          Triple-bind {M = λ _. Saved n false}
            (record {
              at = λ p h. record {
                known = h.known;
                created_eq = h.created_eq;
                name_eq = h.name_eq;
                submitted_eq = h.submitted_eq;
                ready_eq = refl;
                mutating_eq = h.mutating_eq;
              };
            })
            λ x. record { at = λ p h. h }

  Triple-take_snapshot :
      Triple Shown (take_snapshot u w) (λ name. Saved name false) (Fails u w Matches)
  unfolding take_snapshot list_snapshots
  Triple-take_snapshot =
      Triple-bind
        (Triple-ask Shown (Fails u w Matches) Shown-happen (early u w Matches Failure.cancelled)
          (Planned u w Matches) (λ p h. h.known.1) listed tt w.list _
          (early u w Matches (snapshot_error "could not list native PVE snapshots" false false)))
        λ l. Triple-less λ _. Triple-bind (retained_ends (retained_summary 5 l)) λ r.
          Triple-bind (notify_ends r) λ x.
            Triple-bind {M = λ _. Shown} (record { at = λ p h. h })
              λ name.
                Triple-bind
                  (Triple-require Shown (Fails u w Matches) (valid_name name) unexpected
                    (early u w Matches unexpected))
                  λ x. Triple-less λ _. named_ends name

  late_run :
      (n : Text) (f : Failure) (p : Progress)
      → Changed n p × NoSnapshotError f
      → Fails u w Matches f p
  late_run n f p (h, k) = late u w Matches n true f p h k

  Changed-mutated : (n : Text) (p : Progress) → Saved n true p → Changed n (happen mutated p)
  Changed-mutated n p h = record {
    known = (
      Guarded-mutated u w Matches p.events n h.known.1 h.known.0,
      After-now mutated p.events h.known.1,
    );
    created_eq = creations-mutated p.events ∙ h.created_eq;
    name_eq = h.name_eq;
    submitted_eq = h.submitted_eq;
    ready_eq = h.ready_eq;
    mutating_eq = h.mutating_eq;
  }

  mutated-Ends :
      (n : Text) (p : Progress) (r : Transported Mutation)
      → Saved n true p
      → Ends (λ _. Changed n) (Fails u w Matches) (transported r) (happen mutated p)
  mutated-Ends n p (Transported.returned a) h = Changed-mutated n p h
  mutated-Ends n p (Transported.refused e) h =
      late_run n (update_failed e) (happen mutated p) (Changed-mutated n p h, tt)
  mutated-Ends n p Transported.crashed h =
      late_run n unexpected (happen mutated p) (Changed-mutated n p h, tt)
  mutated-Ends n p Transported.cancelled h =
      late_run n Failure.cancelled (happen mutated p) (Changed-mutated n p h, tt)

  -- The stage after a ping that was answered.
  abbrev pub Alive : Text → Progress → Type 0
  Alive n q = Changed n q × Answered u w (Mutated u w Matches n) q.events

  Alive-happen :
      (n : Text) (ev : Event) → Quiet ev → (p : Progress) → Alive n p → Alive n (happen ev p)
  Alive-happen n ev q p (h, k) = (Changed-happen n ev q p h, After-append (ev ∷ []) k)

  -- The mutation returns only with a guest that answers.
  Triple-mutate :
      (n : Text) → Triple (Saved n false) (mutate u w) (λ _. Alive n) (Fails u w Matches)
  unfolding mutate transport
  Triple-mutate n =
      Triple-bind {M = λ _. Saved n true}
        (record {
          at = λ p h. record {
            known = h.known;
            created_eq = h.created_eq;
            name_eq = h.name_eq;
            submitted_eq = h.submitted_eq;
            ready_eq = h.ready_eq;
            mutating_eq = refl;
          };
        })
        λ x.
          Triple-bind (record { at = λ p h. mutated-Ends n p (w.mutate p.events) h })
            λ m.
              Triple-bind {M = λ _. Changed n}
                (record {
                  at = λ p h. record {
                    known = h.known;
                    created_eq = h.created_eq;
                    name_eq = h.name_eq;
                    submitted_eq = h.submitted_eq;
                    ready_eq = h.ready_eq;
                    mutating_eq = h.mutating_eq;
                  };
                })
                λ x.
                  Triple-map (λ a p h. h) (late_run n)
                    (Triple-liveness u w (Changed n) (Changed-happen n) (Mutated u w Matches n)
                      (λ p h. h.known.1))

  -- What is known when the run returns: `left` is whether the snapshot was left behind.
  abbrev pub Done : Bool → Progress → Type 0
  Done left q =
      (n : Text) × Alive n q
      × (left ≡ false → Deleted u w (Answered u w (Mutated u w Matches n)) n q.events)

  pub Triple-guarded_run :
      (message : String) → Triple Start (guarded_run u w same message) Done (Fails u w Matches)
  unfolding guarded_run
  Triple-guarded_run message = Triple-bind (Triple-check_plan message) λ x.
      Triple-bind {M = λ _. Shown}
        (record {
          at = λ p h. record {
            known = h.known;
            created_eq = h.created_eq;
            name_eq = h.name_eq;
            submitted_eq = h.submitted_eq;
            ready_eq = h.ready_eq;
            mutating_eq = h.mutating_eq;
          };
        })
        λ x. Triple-bind Triple-take_snapshot λ n. Triple-bind (Triple-mutate n) λ x.
          Triple-map (λ left q (h, k). (n, h, k)) (λ f q (h, k). late_run n f q (h.0, k))
            (Triple-delete_or_keep u w (Alive n) (Alive-happen n)
              (Answered u w (Mutated u w Matches n)) (λ p h. h.1) n)
