-- ===== src/Process/Safety.antt =====
-- What a run of Update or Autoremove may have done when it ends
-- (custom_components/hubinet_ops/packages/manager.py).
use hubinet_ops_next.Prelude.{
  ◌≡◌, ◌⊎◌, inl, inr, Bool, true, false, Option, some, List, [], ◌∷◌, Text,
}
use hubinet_ops_next.Snapshots.{Unicode}
use hubinet_ops_next.Process.{
  Event, World, Failure, update_failed, snapshot_failed, unexpected, Progress,
}
use hubinet_ops_next.Process.History.{
  After, After-append, Guarded, Guarded-Quiet, Submitted, Withdrawn, creations,
}
use hubinet_ops_next.Process.Stage.{At, Keeps}
use hubinet_ops_next.Process.Waits.{CreateFail}

abbrev pub NoSnapshotError : Failure → Type 0
NoSnapshotError (snapshot_failed e) = ⊥
NoSnapshotError f = Unit

module _ {P : Type 0} (u : Unicode) (w : World P) (Matches : List P → Type 0) where
  -- A stage knows that no mutation was unguarded, and something more.
  abbrev pub With : (List Event → Type 0) → List Event → Type 0
  With F es = Guarded u w Matches es × F es

  abbrev pub Nothing : List Event → Type 0
  Nothing es = Unit {0}

  pub Keeps-After : {Good : List Event → Type 0} {ev : Event} → Keeps (With (After Good ev))
  Keeps-After es e q (g, k) = (Guarded-Quiet u w Matches es e q g, After-append (e ∷ []) k)

  pub Keeps-Nothing : Keeps (With Nothing)
  Keeps-Nothing es e q (g, k) = (Guarded-Quiet u w Matches es e q g, tt)

  -- The snapshot that was submitted is ready, may exist by the error, or a later listing lacked it.
  abbrev pub Accounted : Text → Failure → Progress → Type 0
  Accounted n (update_failed e) p = p.snapshot_ready ≡ true
  Accounted n (snapshot_failed e) p = (e.may_exist ≡ true) ⊎ Withdrawn u w Matches n p.events
  Accounted n Failure.cancelled p = Unit {0}
  Accounted n unexpected p = Unit {0}

  -- No creation was submitted, or one was, which the local variables tell and which is accounted for.
  abbrev pub Traceable : Failure → Progress → Type 0
  Traceable f p =
      (creations p.events ≡ [])
      ⊎ ((n : Text) × (creations p.events ≡ n ∷ [])
          × (p.snapshot_name ≡ some n)
          × (p.snapshot_submitted ≡ true)
          × Accounted n f p)

  abbrev pub Fails : Failure → Progress → Type 0
  Fails f p = Guarded u w Matches p.events × Traceable f p

  -- Before the submission any failure is accounted for.
  pub early :
      {F : List Event → Type 0} {n : Option Text} (f : Failure) (p : Progress)
      → At (With F) n false false false p
      → Fails f p
  early f p h = (h.known.0, inl h.created_eq)

  -- After it the failures of a creation are.
  sent_account :
      (n : Text) (f : Failure) (p : Progress)
      → CreateFail u w (Submitted u w Matches n) n f p
      → Accounted n f p
  sent_account n (update_failed e) p k = absurd k
  sent_account n (snapshot_failed e) p k = k
  sent_account n Failure.cancelled p k = tt
  sent_account n unexpected p k = tt

  pub sent :
      {F : List Event → Type 0} (n : Text) (f : Failure) (p : Progress)
      → At (With F) (some n) true false false p × CreateFail u w (Submitted u w Matches n) n f p
      → Fails f p
  sent n f p (h, k) =
      (h.known.0, inr (n, h.created_eq, h.name_eq, h.submitted_eq, sent_account n f p k))

  -- With a snapshot that is ready.
  late_account :
      (n : Text) (f : Failure) (p : Progress)
      → p.snapshot_ready ≡ true
      → NoSnapshotError f
      → Accounted n f p
  late_account n (update_failed e) p h k = h
  late_account n (snapshot_failed e) p h k = absurd k
  late_account n Failure.cancelled p h k = tt
  late_account n unexpected p h k = tt

  pub late :
      {F : List Event → Type 0} (n : Text) (b : Bool) (f : Failure) (p : Progress)
      → At (With F) (some n) true true b p
      → NoSnapshotError f
      → Fails f p
  late n b f p h k =
      (h.known.0, inr (n, h.created_eq, h.name_eq, h.submitted_eq, late_account n f p h.ready_eq k))
