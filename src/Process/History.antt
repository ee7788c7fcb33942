-- ===== src/Process/History.antt =====
-- What the events of a run of Update or Autoremove show, in their order
-- (custom_components/hubinet_ops/packages/manager.py and snapshots.py).
use hubinet_ops_next.Prelude.{
  ◌≡◌, refl, ◌∙◌, subst, ◌⊎◌, inl, inr, ap, true, List, [], ◌∷◌, ◌++◌, Text,
}
use hubinet_ops_next.Snapshots.{Unicode, Listing, is_complete, is_absent}
use hubinet_ops_next.Process.{
  Event, planned, mutated, status_read, pinged, listed, slept, create_submitted, delete_submitted,
  polled, retained_notified, Reply, Transported, World,
}

-- The event took place where `Good` held of the events before it.
abbrev pub After : (List Event → Type 0) → Event → List Event → Type 0
After Good ev es =
    (before : List Event) × (later : List Event) × (es ≡ before ++ (ev ∷ later)) × Good before

append_assoc : (a b c : List Event) → (a ++ b) ++ c ≡ a ++ (b ++ c)
append_assoc [] b c = refl
append_assoc (x ∷ a) b c = ap (λ l. x ∷ l) (append_assoc a b c)

-- What took place stays so.
pub After-append :
    {Good : List Event → Type 0} {ev : Event} {es : List Event} (more : List Event)
    → After Good ev es
    → After Good ev (es ++ more)
After-append {ev} more (b, a, e, g) =
    (b, a ++ more, ap (λ l. l ++ more) e ∙ append_assoc b (ev ∷ a) more, g)

pub After-now :
    {Good : List Event → Type 0} (ev : Event) (es : List Event)
    → Good es
    → After Good ev (es ++ ev ∷ [])
After-now ev es g = (es, [], refl, g)

pub After-map :
    {Good Other : List Event → Type 0} {ev : Event} {es : List Event}
    → ((b : List Event) → Good b → Other b)
    → After Good ev es
    → After Other ev es
After-map f (b, a, e, g) = (b, a, e, f b g)

-- An event that is neither a mutation nor the submission of a snapshot.
abbrev pub Quiet : Event → Type 0
Quiet mutated = ⊥
Quiet (create_submitted n) = ⊥
Quiet e = Unit

-- The last event of a history is the one that is found, or it stands after it.
last_event :
    (es b a : List Event) (e x : Event)
    → es ++ e ∷ [] ≡ b ++ (x ∷ a)
    → ((e ≡ x) × (es ≡ b)) ⊎ ((later : List Event) × (es ≡ b ++ (x ∷ later)))
last_event [] [] a e x h = inl (cc, refl)
last_event [] (y ∷ []) a e x h = cc
last_event [] (y ∷ (z ∷ b)) a e x h = cc
last_event (y ∷ es) [] a e x h = inr (es, cc)
last_event (y ∷ es) (z ∷ b) a e x h =
    let same : y ≡ z = cc in
    elim (last_event es b a e x cc) [ inl (p, q) ↦ inl (p, cc) | inr (later, q) ↦ inr (later, cc) ]

-- The names of the snapshots whose creation was submitted.
unfoldable pub creations : List Event → List Text
creations [] = []
creations (create_submitted n ∷ es) = n ∷ creations es
creations (e ∷ es) = creations es

pub creations-Quiet :
    (es : List Event) (ev : Event) → Quiet ev → creations (es ++ ev ∷ []) ≡ creations es
unfolding creations
creations-Quiet [] planned q = refl
creations-Quiet [] mutated q = absurd q
creations-Quiet [] status_read q = refl
creations-Quiet [] pinged q = refl
creations-Quiet [] listed q = refl
creations-Quiet [] slept q = refl
creations-Quiet [] (create_submitted n) q = absurd q
creations-Quiet [] (delete_submitted n) q = refl
creations-Quiet [] (polled n) q = refl
creations-Quiet [] (retained_notified n) q = refl
creations-Quiet (planned ∷ es) ev q = creations-Quiet es ev q
creations-Quiet (mutated ∷ es) ev q = creations-Quiet es ev q
creations-Quiet (status_read ∷ es) ev q = creations-Quiet es ev q
creations-Quiet (pinged ∷ es) ev q = creations-Quiet es ev q
creations-Quiet (listed ∷ es) ev q = creations-Quiet es ev q
creations-Quiet (slept ∷ es) ev q = creations-Quiet es ev q
creations-Quiet (create_submitted n ∷ es) ev q = ap (λ l. n ∷ l) (creations-Quiet es ev q)
creations-Quiet (delete_submitted n ∷ es) ev q = creations-Quiet es ev q
creations-Quiet (polled n ∷ es) ev q = creations-Quiet es ev q
creations-Quiet (retained_notified n ∷ es) ev q = creations-Quiet es ev q

pub creations-mutated : (es : List Event) → creations (es ++ mutated ∷ []) ≡ creations es
unfolding creations
creations-mutated [] = refl
creations-mutated (planned ∷ es) = creations-mutated es
creations-mutated (mutated ∷ es) = creations-mutated es
creations-mutated (status_read ∷ es) = creations-mutated es
creations-mutated (pinged ∷ es) = creations-mutated es
creations-mutated (listed ∷ es) = creations-mutated es
creations-mutated (slept ∷ es) = creations-mutated es
creations-mutated (create_submitted n ∷ es) = ap (λ l. n ∷ l) (creations-mutated es)
creations-mutated (delete_submitted n ∷ es) = creations-mutated es
creations-mutated (polled n ∷ es) = creations-mutated es
creations-mutated (retained_notified n ∷ es) = creations-mutated es

pub creations-create :
    (es : List Event) (n : Text)
    → creations (es ++ create_submitted n ∷ []) ≡ creations es ++ n ∷ []
unfolding creations
creations-create [] n = refl
creations-create (planned ∷ es) n = creations-create es n
creations-create (mutated ∷ es) n = creations-create es n
creations-create (status_read ∷ es) n = creations-create es n
creations-create (pinged ∷ es) n = creations-create es n
creations-create (listed ∷ es) n = creations-create es n
creations-create (slept ∷ es) n = creations-create es n
creations-create (create_submitted k ∷ es) n = ap (λ l. k ∷ l) (creations-create es n)
creations-create (delete_submitted k ∷ es) n = creations-create es n
creations-create (polled k ∷ es) n = creations-create es n
creations-create (retained_notified k ∷ es) n = creations-create es n

module _ {P : Type 0} (u : Unicode) (w : World P) where
  -- A listing shows the snapshot complete, or absent.
  abbrev pub Shows : Text → List Event → Type 0
  Shows n es = (l : Listing) × (w.list es ≡ Reply.returned l) × (is_complete l n ≡ true)

  abbrev pub Lacks : Text → List Event → Type 0
  Lacks n es = (l : Listing) × (w.list es ≡ Reply.returned l) × (is_absent l n ≡ true)

  -- Where `Before` held, a ping was answered.
  abbrev pub Answered : (List Event → Type 0) → List Event → Type 0
  Answered Before = After (λ es. Before es × (w.ping es ≡ Transported.returned true)) pinged

  -- Where `Before` held, the snapshot's deletion was submitted, and later a listing lacked it.
  abbrev pub Deleted : (List Event → Type 0) → Text → List Event → Type 0
  Deleted Before n = After (λ es. After Before (delete_submitted n) es × Lacks n es) listed

  module _ (Matches : List P → Type 0) where
    -- A plan was asked for afresh, and it is the one that was shown.
    abbrev pub Planned : List Event → Type 0
    Planned =
        After (λ es. (fresh : List P) × (w.plan es ≡ Transported.returned fresh) × Matches fresh)
          planned

    -- After that, the creation of a snapshot was submitted.
    abbrev pub Submitted : Text → List Event → Type 0
    Submitted n = After Planned (create_submitted n)

    -- After that, a listing showed it complete.
    abbrev pub Complete : Text → List Event → Type 0
    Complete n = After (λ es. Submitted n es × Shows n es) listed

    -- After the submission, a listing lacked it.
    abbrev pub Withdrawn : Text → List Event → Type 0
    Withdrawn n = After (λ es. Submitted n es × Lacks n es) listed

    -- After the complete snapshot was seen, the packages were mutated.
    abbrev pub Mutated : Text → List Event → Type 0
    Mutated n = After (Complete n) mutated

    -- Every mutation stands after a snapshot that was seen complete.
    abbrev pub Guarded : List Event → Type 0
    Guarded es =
        (before later : List Event)
        → es ≡ before ++ (mutated ∷ later)
        → (n : Text) × Complete n before

    Quiet-mutated : (ev : Event) → Quiet ev → ev ≡ mutated → ⊥
    Quiet-mutated planned q h = cc
    Quiet-mutated mutated q h = q
    Quiet-mutated status_read q h = cc
    Quiet-mutated pinged q h = cc
    Quiet-mutated listed q h = cc
    Quiet-mutated slept q h = cc
    Quiet-mutated (create_submitted n) q h = cc
    Quiet-mutated (delete_submitted n) q h = cc
    Quiet-mutated (polled n) q h = cc
    Quiet-mutated (retained_notified n) q h = cc

    -- An event that is no mutation keeps this, and so does one with a complete snapshot before it.
    pub Guarded-other :
        (es : List Event) (ev : Event) → (ev ≡ mutated → ⊥) → Guarded es → Guarded (es ++ ev ∷ [])
    Guarded-other es ev q g b a h = elim (last_event es b a ev mutated h) [
      | inl (e, same) ↦ absurd (q e)
      | inr (later, same) ↦ g b later same
    ]

    pub Guarded-Quiet :
        (es : List Event) (ev : Event) → Quiet ev → Guarded es → Guarded (es ++ ev ∷ [])
    Guarded-Quiet es ev q g = Guarded-other es ev (Quiet-mutated ev q) g

    pub Guarded-mutated :
        (es : List Event) (n : Text) → Complete n es → Guarded es → Guarded (es ++ mutated ∷ [])
    Guarded-mutated es n c g b a h = elim (last_event es b a mutated mutated h) [
      | inl (e, same) ↦ (n, subst (Complete n) same c)
      | inr (later, same) ↦ g b later same
    ]
