-- ===== src/Process/Stages.antt =====
-- The stages of a run with a snapshot, one after the other
-- (custom_components/hubinet_ops/packages/manager.py).
use hubinet_ops_next.Prelude.{
  ℕ, ◌≡◌, refl, Bool, true, false, List, [], ◌∷◌, Text, codes, starts_with,
}
use hubinet_ops_next.Prelude.Results.{Result, ok, err}
use hubinet_ops_next.Snapshots.{
  Unicode, SnapshotError, is_absent, require_upid, valid_name, prefix, field_is,
}
use hubinet_ops_next.Process.{
  Event, listed, slept, delete_submitted, pinged, status_read, Transported, World, Failure,
  update_failed, snapshot_failed, unexpected, Progress, happen, transported, require,
  snapshot_error, ◌>>=◌,
}
use hubinet_ops_next.Process.History.{
  After, After-now, After-append, After-map, Quiet, Answered, Deleted,
}
use hubinet_ops_next.Process.Hoare.{Ends, Triple, Triple-bind, Triple-map}
use hubinet_ops_next.Process.Stage.{Triple-less, Triple-ask, Triple-require}
use hubinet_ops_next.Process.Waits.{WaitFail, wait_ends}
use hubinet_ops_next.Process.Snapshot.{
  wait_for_task, list_snapshots, deletion_failed, upid_or, delete_snapshot,
}
use hubinet_ops_next.Process.Run.{
  answered, first_ping, second_ping, left_by, ping_once, require_liveness, delete_or_keep,
  max_polls,
}
use hubinet_ops_next.Process.Safety.{NoSnapshotError}

-- Deleting a snapshot raises no error of an Update.
abbrev DeleteFail : Failure → Type 0
DeleteFail (update_failed e) = ⊥
DeleteFail f = Unit

module _ {P : Type 0} (u : Unicode) (w : World P) where
  module _ (Here : Progress → Type 0)
      (move : (ev : Event) → Quiet ev → (p : Progress) → Here p → Here (happen ev p))
      (Before : List Event → Type 0) (know : (p : Progress) → Here p → Before p.events) where
    abbrev Live : Progress → Type 0
    Live q = Answered u w Before q.events

    ping-Ends :
        (p : Progress) (r : Transported Bool)
        → w.ping p.events ≡ r
        → Before p.events
        → Here (happen pinged p)
        → Ends
            (λ b q. Here q × (b ≡ true → Live q))
            (λ f q. Here q × NoSnapshotError f)
            (answered (transported r))
            (happen pinged p)
    ping-Ends p (Transported.returned b) e k h = (h, λ t. After-now pinged p.events (k, rw (← t) e))
    ping-Ends p (Transported.refused x) e k h = (h, λ t. cc)
    ping-Ends p Transported.crashed e k h = (h, tt)
    ping-Ends p Transported.cancelled e k h = (h, tt)

    Triple-ping :
        Triple Here
          (ping_once u w)
          (λ b q. Here q × (b ≡ true → Live q))
          (λ f q. Here q × NoSnapshotError f)
    unfolding ping_once
    Triple-ping = record {
      at = λ p h. ping-Ends p (w.ping p.events) refl (know p h) (move pinged tt p h);
    }

    second_ends :
        (b : Bool)
        → Triple
            (λ q. Here q × (b ≡ true → Live q))
            (second_ping b)
            (λ _ q. Here q × Live q)
            (λ f q. Here q × NoSnapshotError f)
    second_ends true = record { at = λ p (h, k). (h, k refl) }
    second_ends false = record { at = λ p (h, k). (h, tt) }

    first_ends :
        (b : Bool)
        → Triple
            (λ q. Here q × (b ≡ true → Live q))
            (first_ping u w b)
            (λ _ q. Here q × Live q)
            (λ f q. Here q × NoSnapshotError f)
    first_ends true = record { at = λ p (h, k). (h, k refl) }
    first_ends false = Triple-less λ _.
        Triple-bind
          (Triple-ask Here _ move (λ p h. (h, tt)) Before know slept tt w.sleep unexpected
            (λ p h. (h, tt)))
          λ x. Triple-less λ _. Triple-bind Triple-ping second_ends

    -- The liveness probe returns only after a ping was answered, and keeps the stage.
    pub Triple-liveness :
        Triple Here
          (require_liveness u w)
          (λ _ q. Here q × Live q)
          (λ f q. Here q × NoSnapshotError f)
    unfolding require_liveness
    Triple-liveness =
        Triple-bind
          (Triple-ask Here _ move (λ p h. (h, tt)) Before know status_read tt w.status _
            (λ p h. (h, tt)))
          λ status. Triple-less λ _.
            Triple-bind
              (Triple-require Here _ (field_is (codes "running") status) _ (λ p h. (h, tt)))
              λ x. Triple-less λ _. Triple-bind Triple-ping first_ends

    wait-DeleteFail : (f : Failure) → WaitFail f → DeleteFail f
    wait-DeleteFail (update_failed e) k = k
    wait-DeleteFail (snapshot_failed e) k = tt
    wait-DeleteFail Failure.cancelled k = tt
    wait-DeleteFail unexpected k = tt

    -- The stage once the deletion was submitted.
    abbrev Deleting : Text → Progress → Type 0
    Deleting n q = Here q × After Before (delete_submitted n) q.events

    Deleting-happen :
        (n : Text) (ev : Event)
        → Quiet ev
        → (p : Progress) → Deleting n p
        → Deleting n (happen ev p)
    Deleting-happen n ev q p (h, k) = (move ev q p h, After-append (ev ∷ []) k)

    upid-Ends :
        (n : Text) (r : Result SnapshotError Text)
        → Triple
            (Deleting n)
            (upid_or deletion_failed r)
            (λ _. Deleting n)
            (λ f q. Here q × DeleteFail f)
    upid-Ends n (ok s) = record { at = λ p h. h }
    upid-Ends n (err e) = record { at = λ p h. (h.0, tt) }

    -- The listing after the task of a deletion confirms it.
    confirm_ends :
        (n upid : Text) (polls : ℕ)
        → Triple
            (Deleting n)
            (wait_for_task u w upid polls >>= λ _. list_snapshots u w true >>= λ l.
              require
                (is_absent l n)
                (snapshot_error "native PVE snapshot deletion could not be confirmed" true false))
            (λ _ q. Here q × Deleted u w Before n q.events)
            (λ f q. Here q × DeleteFail f)
    unfolding list_snapshots
    confirm_ends n upid polls =
        Triple-bind
          (Triple-map (λ a p h. h) (λ f p ((h, d), k). (h, wait-DeleteFail f k))
            (wait_ends u w (After Before (delete_submitted n)) (Deleting n) (Deleting-happen n)
              (λ p h. h.1) upid polls))
          λ x.
            Triple-bind
              (Triple-ask (Deleting n) (λ f q. Here q × DeleteFail f) (Deleting-happen n)
                (λ p h. (h.0, tt)) (After Before (delete_submitted n)) (λ p h. h.1) listed tt w.list
                _ (λ p h. (h.0, tt)))
              λ l.
                Triple-map (λ a p ((d, k), q). (d.0, After-map (λ es (s, e). (s, (l, e, q))) k))
                  (λ f p h. h) (Triple-require _ _ (is_absent l n) _ (λ p (d, k). (d.0, tt)))

    -- A deletion returns only after a listing that follows its submission lacked the snapshot.
    pub Triple-delete :
        (polls : ℕ) (n : Text)
        → Triple Here
            (delete_snapshot u w polls n)
            (λ _ q. Here q × Deleted u w Before n q.events)
            (λ f q. Here q × DeleteFail f)
    unfolding delete_snapshot list_snapshots
    Triple-delete polls n =
        Triple-bind (Triple-require Here _ (valid_name n) _ (λ p h. (h, tt))) λ x. Triple-less λ _.
          Triple-bind (Triple-require Here _ (starts_with prefix n) _ (λ p h. (h, tt))) λ x.
            Triple-less λ _.
              Triple-bind
                (Triple-map (λ a p (h, k). (h, After-map (λ es k. k.0) k)) (λ f p h. h)
                  (Triple-ask Here _ move (λ p h. (h, tt)) Before know (delete_submitted n) tt
                    w.delete _ (λ p h. (h, tt))))
                λ raw.
                  Triple-bind (upid-Ends n (require_upid u false raw))
                    λ upid. confirm_ends n upid polls

    left-Ends :
        (n : Text) (r : Result Failure (Unit {0})) (p : Progress)
        → Ends (λ _ q. Here q × Deleted u w Before n q.events) (λ f q. Here q × DeleteFail f) r p
        → Ends
            (λ left q. Here q × (left ≡ false → Deleted u w Before n q.events))
            (λ f q. Here q × NoSnapshotError f)
            (left_by r)
            p
    left-Ends n (ok x) p (h, a) = (h, λ _. a)
    left-Ends n (err (update_failed e)) p (h, k) = absurd k
    left-Ends n (err (snapshot_failed e)) p (h, k) = (h, λ q. cc)
    left-Ends n (err Failure.cancelled) p (h, k) = (h, tt)
    left-Ends n (err unexpected) p (h, k) = (h, tt)

    -- A snapshot that is not reported as left was seen absent.
    pub Triple-delete_or_keep :
        (n : Text)
        → Triple Here
            (delete_or_keep u w n)
            (λ left q. Here q × (left ≡ false → Deleted u w Before n q.events))
            (λ f q. Here q × NoSnapshotError f)
    unfolding delete_or_keep
    Triple-delete_or_keep n = record {
      at = λ p h. left-Ends n _ _ ((Triple-delete max_polls n).at p h);
    }
