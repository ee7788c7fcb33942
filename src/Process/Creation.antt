-- ===== src/Process/Creation.antt =====
-- The creation of the safety snapshot, from its submission to the listing that confirms it
-- (custom_components/hubinet_ops/packages/snapshots.py).
use hubinet_ops_next.Prelude.{
  ℕ, arith, ◌≡◌, refl, ap, ◌∙◌, ◌++◌, [], ◌∷◌, inl, true, false, some, List, Text,
}
use hubinet_ops_next.Prelude.Results.{Result, ok, err}
use hubinet_ops_next.Snapshots.{
  text, Unicode, Field, SnapshotError, is_complete, require_upid, valid_name,
}
use hubinet_ops_next.Process.{
  Event, listed, Reply, World, Failure, snapshot_failed, unexpected, Progress, happen, require,
  lift, of_result, Submission, entered, not_entered, not_entered_cancelled, create_submitted,
  snapshot_error, ◌>>=◌,
}
use hubinet_ops_next.Process.History.{
  After-now, After-map, Quiet, Guarded-other, Planned, Submitted, Complete, creations-create,
}
use hubinet_ops_next.Process.Hoare.{Ends, Triple, Triple-bind, Triple-map}
use hubinet_ops_next.Process.Stage.{
  At, At-happen, At-known, Triple-fact, Triple-ask, Triple-require,
}
use hubinet_ops_next.Process.Waits.{wait_created_ends}
use hubinet_ops_next.Process.Snapshot.{
  list_snapshots, submission_failed, submitted, submit_snapshot, create_snapshot,
}
use hubinet_ops_next.Process.Safety.{With, Keeps-After, Fails, early, sent}

-- An invalid task identifier says of a creation that the snapshot may exist.
require_upid_may :
    (u : Unicode) (raw : Field) (e : SnapshotError)
    → require_upid u true raw ≡ err e
    → e.may_exist ≡ true
unfolding require_upid
require_upid_may u (text s) e = ground arith
require_upid_may u no_field e = ground arith

module _ {P : Type 0} (u : Unicode) (w : World P) (Matches : List P → Type 0) where
  -- The stages round the submission.
  abbrev Ready : Text → Progress → Type 0
  Ready n = At (With u w Matches (Planned u w Matches)) (some n) false false false

  abbrev Sent : Text → Progress → Type 0
  Sent n = At (With u w Matches (Submitted u w Matches n)) (some n) true false false

  Sent-happen :
      (n : Text) (ev : Event) → Quiet ev → (p : Progress) → Sent n p → Sent n (happen ev p)
  Sent-happen n = At-happen _ (Keeps-After u w Matches) (some n) true false false

  submit_mark :
      (n : Text) (p : Progress)
      → Ready n p
      → Sent n (record (happen (create_submitted n) p) { snapshot_submitted = true })
  submit_mark n p h = record {
    known = (
      Guarded-other u w Matches p.events (create_submitted n) (λ e. cc) h.known.0,
      After-now (create_submitted n) p.events h.known.1,
    );
    created_eq = creations-create p.events n ∙ ap (λ l. l ++ n ∷ []) h.created_eq;
    name_eq = h.name_eq;
    submitted_eq = refl;
    ready_eq = h.ready_eq;
    mutating_eq = h.mutating_eq;
  }

  submitted-Ends :
      (n : Text) (s : Submission) (p : Progress)
      → Ready n p
      → Ends (λ _. Sent n) (Fails u w Matches) (submitted n s p).0 (submitted n s p).1
  unfolding submitted
  submitted-Ends n (entered (Reply.returned raw)) p h = submit_mark n p h
  submitted-Ends n (entered Reply.raised) p h =
      sent u w Matches n submission_failed (submitted n (entered Reply.raised) p).1
        (submit_mark n p h, inl refl)
  submitted-Ends n (entered Reply.cancelled) p h =
      sent u w Matches n Failure.cancelled (submitted n (entered Reply.cancelled) p).1
        (submit_mark n p h, tt)
  submitted-Ends n not_entered p h = early u w Matches submission_failed p h
  submitted-Ends n not_entered_cancelled p h = early u w Matches Failure.cancelled p h

  upid-Ends :
      (n : Text) (raw : Field) (r : Result SnapshotError Text)
      → require_upid u true raw ≡ r
      → (p : Progress) → Sent n p
      → Ends (λ _. Sent n) (Fails u w Matches) (of_result r) p
  upid-Ends n raw (ok s) e p h = h
  upid-Ends n raw (err x) e p h =
      sent u w Matches n (snapshot_failed x) p (h, inl (require_upid_may u raw x e))

  Triple-upid :
      (n : Text) (raw : Field)
      → Triple (Sent n) (lift (require_upid u true raw)) (λ _. Sent n) (Fails u w Matches)
  Triple-upid n raw = record { at = λ p h. upid-Ends n raw (require_upid u true raw) refl p h }

  -- The stage at which the snapshot was seen complete.
  abbrev pub Confirmed : Text → Progress → Type 0
  Confirmed n = At (With u w Matches (Complete u w Matches n)) (some n) true false false

  confirm_ends :
      (n : Text)
      → Triple
          (Sent n)
          (list_snapshots u w true >>= λ l.
            require
              (is_complete l n)
              (snapshot_error "native PVE snapshot could not be confirmed complete" true false))
          (λ _. Confirmed n)
          (Fails u w Matches)
  unfolding list_snapshots
  confirm_ends n =
      Triple-bind
        (Triple-ask (Sent n) (Fails u w Matches) (Sent-happen n)
          (λ p h. sent u w Matches n Failure.cancelled p (h, tt)) (Submitted u w Matches n)
          (λ p h. h.known.1) listed tt w.list _
          (λ p h.
            sent u w Matches n (snapshot_error "could not list native PVE snapshots" true false) p
              (h, inl refl)))
        λ l.
          Triple-map
            (λ a p ((h, k), q). At-known p h (h.known.0, After-map (λ es (s, e). (s, (l, e, q))) k))
            (λ f p h. h)
            (Triple-require _ _ (is_complete l n) _ (λ p (h, k).
              sent u w Matches n
                (snapshot_error "native PVE snapshot could not be confirmed complete" true false) p
                (h, inl refl)))

  -- A creation that returns was submitted, and a later listing showed the snapshot complete.
  pub Triple-create :
      (polls : ℕ) (n : Text)
      → Triple
          (At (With u w Matches (Planned u w Matches)) (some n) false false false)
          (create_snapshot u w polls n)
          (λ _. Confirmed n)
          (Fails u w Matches)
  unfolding create_snapshot list_snapshots submit_snapshot
  Triple-create polls n =
      Triple-bind
        (Triple-require (Ready n) (Fails u w Matches) (valid_name n) unexpected
          (early u w Matches unexpected))
        λ x. Triple-fact λ _.
          Triple-bind (record { at = λ p h. submitted-Ends n (w.submit p.events) p h })
            λ raw. Triple-bind (Triple-upid n raw) λ upid.
              Triple-bind
                (Triple-map (λ a p h. h) (sent u w Matches n)
                  (wait_created_ends u w (Submitted u w Matches n) (Sent n) (Sent-happen n)
                    (λ p h. h.known.1) n upid polls))
                λ x. confirm_ends n
