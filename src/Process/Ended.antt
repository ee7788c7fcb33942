-- ===== src/Process/Ended.antt =====
-- How a run with a snapshot ends, for any plan and any comparison
-- (custom_components/hubinet_ops/packages/manager.py).
use hubinet_ops_next.Prelude.{
  ℕ, ◌≡◌, refl, ◌∙◌, subst, ◌⊎◌, inl, inr, Bool, true, false, none, some, List, [], ◌∷◌, ◌++◌, Text,
  String, arith,
}
use hubinet_ops_next.Prelude.Results.{Result, ok, err}
use hubinet_ops_next.Models.{UpdateRecord, UpdateStatus}
use hubinet_ops_next.Snapshots.{Unicode}
use hubinet_ops_next.Process.{
  Event, mutated, World, Failure, update_failed, snapshot_failed, unexpected, Progress, no_progress,
}
use hubinet_ops_next.Process.History.{Guarded, Mutated, Answered, Withdrawn, Deleted, creations}
use hubinet_ops_next.Process.Hoare.{Ends}
use hubinet_ops_next.Process.Stage.{At}
use hubinet_ops_next.Process.Run.{guarded_run}
use hubinet_ops_next.Process.Outcome.{update_outcome, cleanup_outcome}
use hubinet_ops_next.Process.Safety.{With, Nothing, Fails, Accounted}
use hubinet_ops_next.Process.Runs.{Done, Triple-guarded_run}

no_events : {A : Type 0} (b a : List Event) → [] ≡ b ++ (mutated ∷ a) → A
no_events [] a h = cc
no_events (x ∷ b) a h = cc

module _ {P : Type 0} (u : Unicode) (w : World P) (Matches : List P → Type 0) where
  -- What a run that is reported as a success has done: the packages were changed after its snapshot
  -- was seen complete, then a ping was answered, and the record names the snapshot or, later still,
  -- a listing that follows its deletion lacked it.
  abbrev pub Succeeded : UpdateRecord → List Event → Type 0
  Succeeded r es =
      (n : Text) × Answered u w (Mutated u w Matches n) es
      × ((r.snapshot_name ≡ some n) ⊎ Deleted u w (Answered u w (Mutated u w Matches n)) n es)

  -- The record names the snapshot, or a listing that follows its submission lacked it, or one that
  -- follows its deletion did.
  abbrev pub Traced : Text → UpdateRecord → List Event → Type 0
  Traced n r es =
      (r.snapshot_name ≡ some n)
      ⊎ (Withdrawn u w Matches n es ⊎ Deleted u w (Answered u w (Mutated u w Matches n)) n es)

module _ {P : Type 0} (u : Unicode) (w : World P) (same : List P → Bool) (Matches : List P → Type 0)
    (right : (l : List P) → same l ≡ true → Matches l) where
  fresh_start : At (With u w Matches (Nothing u w Matches)) none false false false no_progress
  unfolding creations
  fresh_start = record {
    known = (λ b a h. no_events b a h, tt);
    created_eq = refl;
    name_eq = refl;
    submitted_eq = refl;
    ready_eq = refl;
    mutating_eq = refl;
  }

  -- How a run ends.
  abbrev pub Ended : Result Failure Bool → Progress → Type 0
  Ended = Ends (Done u w same Matches right) (Fails u w Matches)

  pub run-Ended :
      (message : String)
      → Ended
          (guarded_run u w same message no_progress).0
          (guarded_run u w same message no_progress).1
  run-Ended message = (Triple-guarded_run u w same Matches right message).at no_progress fresh_start

  pub protected :
      (r : Result Failure Bool) (p : Progress) → Ended r p → Guarded u w Matches p.events
  protected (ok left) p (n, (h, live), k) = h.known.0
  protected (err f) p (g, k) = g

  pub update_success :
      (at : ℕ) (r : Result Failure Bool) (p : Progress)
      → Ended r p
      → (update_outcome at false r p).status ≡ UpdateStatus.success
      → Succeeded u w Matches (update_outcome at false r p) p.events
  unfolding update_outcome
  update_success at (ok true) p (n, (h, live), k) e = (n, live, inl h.name_eq)
  update_success at (ok false) p (n, (h, live), k) e = (n, live, inr (k refl))
  update_success at (err (update_failed x)) p h e = cc
  update_success at (err (snapshot_failed x)) p h e = cc
  update_success at (err Failure.cancelled) p h e = cc
  update_success at (err unexpected) p h e = cc

  pub cleanup_success :
      (at : ℕ) (r : Result Failure Bool) (p : Progress)
      → Ended r p
      → (cleanup_outcome at r p).status ≡ UpdateStatus.success
      → Succeeded u w Matches (cleanup_outcome at r p) p.events
  unfolding cleanup_outcome
  cleanup_success at (ok true) p (n, (h, live), k) e = (n, live, inl h.name_eq)
  cleanup_success at (ok false) p (n, (h, live), k) e = (n, live, inr (k refl))
  cleanup_success at (err (update_failed x)) p h e = cc
  cleanup_success at (err (snapshot_failed x)) p h e = cc
  cleanup_success at (err Failure.cancelled) p h e = cc
  cleanup_success at (err unexpected) p h e = cc

  update-account :
      (at : ℕ) (n : Text) (f : Failure) (p : Progress)
      → p.snapshot_name ≡ some n
      → p.snapshot_submitted ≡ true
      → Accounted u w Matches n f p
      → Traced u w Matches n (update_outcome at false (err f) p) p.events
  unfolding update_outcome
  update-account at n (update_failed e) p h s k = inl (ground arith)
  update-account at n (snapshot_failed e) p h s (inl k) = inl (ground arith)
  update-account at n (snapshot_failed e) p h s (inr k) = inr (inl k)
  update-account at n Failure.cancelled p h s k = inl (ground arith)
  update-account at n unexpected p h s k = inl (ground arith)

  pub update-Traced :
      (at : ℕ) (r : Result Failure Bool) (p : Progress)
      → Ended r p
      → (n : Text) (ns : List Text) → creations p.events ≡ n ∷ ns
      → (ns ≡ []) × Traced u w Matches n (update_outcome at false r p) p.events
  unfolding update_outcome
  update-Traced at (ok true) p (k, (h, live), d) n ns e =
      let same_name : k ≡ n = cc (h.created_eq) in (cc (h.created_eq), inl (h.name_eq ∙ cc))
  update-Traced at (ok false) p (k, (h, live), d) n ns e =
      let same_name : k ≡ n = cc (h.created_eq) in
      (
        cc (h.created_eq),
        inr (
            inr (
              subst (λ x. Deleted u w (Answered u w (Mutated u w Matches x)) x p.events) same_name
                (d refl))),
      )
  update-Traced at (err f) p (g, inl b) n ns e = cc
  update-Traced at (err f) p (g, inr (k, c, name, s, b)) n ns e =
      let same_name : k ≡ n = cc in
      (
        cc,
        subst (λ x. Traced u w Matches x (update_outcome at false (err f) p) p.events) same_name
            (update-account at k f p name s b),
      )

  cleanup_name :
      (at : ℕ) (r : Result Failure Bool) (p : Progress)
      → (update_outcome at false r p).snapshot_name ≡ (cleanup_outcome at r p).snapshot_name
  unfolding cleanup_outcome update_outcome
  cleanup_name at (ok true) p = refl
  cleanup_name at (ok false) p = refl
  cleanup_name at (err (update_failed e)) p = refl
  cleanup_name at (err (snapshot_failed e)) p = refl
  cleanup_name at (err Failure.cancelled) p = refl
  cleanup_name at (err unexpected) p = refl

  pub cleanup-Traced :
      (at : ℕ) (r : Result Failure Bool) (p : Progress)
      → Ended r p
      → (n : Text) (ns : List Text) → creations p.events ≡ n ∷ ns
      → (ns ≡ []) × Traced u w Matches n (cleanup_outcome at r p) p.events
  cleanup-Traced at r p h n ns e =
      let (single, traced) = update-Traced at r p h n ns e in
      (
        single,
        subst
            (λ x.
              (x ≡ some n)
              ⊎ (Withdrawn u w Matches n p.events
                  ⊎ Deleted u w (Answered u w (Mutated u w Matches n)) n p.events))
            (cleanup_name at r p) traced,
      )
