-- ===== src/Process/Stage.antt =====
-- The stages of `_async_run_update` and `_async_run_autoremove`, by the local variables that the
-- handlers read, and how a call keeps them
-- (custom_components/hubinet_ops/packages/manager.py and snapshots.py).
use hubinet_ops_next.Prelude.{
  ◌≡◌, refl, ◌∙◌, ◌++◌, [], ◌∷◌, none, some, Bool, true, false, Option, List, Text,
}
use hubinet_ops_next.Process.{
  Event, Reply, Transported, Failure, update_failed, unexpected, Progress, Proc, happen, replied,
  ask, transport, transported, require,
}
use hubinet_ops_next.Process.History.{After, After-now, Quiet, creations, creations-Quiet}
use hubinet_ops_next.Process.Hoare.{Ends, Triple}

-- The creations that were submitted.
abbrev pub made : Bool → Option Text → List Text
made false n = []
made true none = []
made true (some n) = n ∷ []

-- What quiet events keep.
abbrev pub Keeps : (List Event → Type 0) → Type 0
Keeps K = (es : List Event) (ev : Event) → Quiet ev → K es → K (es ++ ev ∷ [])

-- The local variables but for the count and `snapshot_started`, what is known of the events, and the
-- creations among them.
pub record At (K : List Event → Type 0) (name : Option Text) (submitted ready mutating : Bool)
    (p : Progress) : Type 0 where
  pub known : K p.events
  pub created_eq : creations p.events ≡ made submitted name
  pub name_eq : p.snapshot_name ≡ name
  pub submitted_eq : p.snapshot_submitted ≡ submitted
  pub ready_eq : p.snapshot_ready ≡ ready
  pub mutating_eq : p.mutation_started ≡ mutating

module _ (K : List Event → Type 0) (keeps : Keeps K) (name : Option Text)
    (submitted ready mutating : Bool) where
  pub At-happen :
      (ev : Event)
      → Quiet ev
      → (p : Progress) → At K name submitted ready mutating p
      → At K name submitted ready mutating (happen ev p)
  At-happen ev q p h = record {
    known = keeps p.events ev q h.known;
    created_eq = creations-Quiet p.events ev q ∙ h.created_eq;
    name_eq = h.name_eq;
    submitted_eq = h.submitted_eq;
    ready_eq = h.ready_eq;
    mutating_eq = h.mutating_eq;
  }

-- More may be known of the events of a stage.
pub At-known :
    {K L : List Event → Type 0} {name : Option Text} {submitted ready mutating : Bool}
    (p : Progress)
    → At K name submitted ready mutating p
    → L p.events
    → At L name submitted ready mutating p
At-known p h k = record {
  known = k;
  created_eq = h.created_eq;
  name_eq = h.name_eq;
  submitted_eq = h.submitted_eq;
  ready_eq = h.ready_eq;
  mutating_eq = h.mutating_eq;
}

-- A fact that a stage carries is at hand for the rest.
pub Triple-fact :
    {A F : Type 0} {P : Progress → Type 0} {m : Proc A} {Q : A → Progress → Type 0}
    {E : Failure → Progress → Type 0}
    → (F → Triple P m Q E)
    → Triple (λ p. P p × F) m Q E
Triple-fact k = record { at = λ p h. (k h.1).at p h.0 }

-- What is known beside the stage may be forgotten.
pub Triple-less :
    {A : Type 0} {P F : Progress → Type 0} {m : Proc A} {Q : A → Progress → Type 0}
    {E : Failure → Progress → Type 0}
    → (Unit {0} → Triple P m Q E)
    → Triple (λ p. P p × F p) m Q E
Triple-less k = record { at = λ p h. (k tt).at p h.0 }

-- A test.
pub Triple-require :
    (Here : Progress → Type 0) (E : Failure → Progress → Type 0) (b : Bool) (f : Failure)
    → ((p : Progress) → Here p → E f p)
    → Triple Here (require b f) (λ _ q. Here q × (b ≡ true)) E
Triple-require Here E true f k = record { at = λ p h. (h, refl) }
Triple-require Here E false f k = record { at = λ p h. k p h }

module _ (Here : Progress → Type 0) (E : Failure → Progress → Type 0)
    (move : (ev : Event) → Quiet ev → (p : Progress) → Here p → Here (happen ev p))
    (stop : (p : Progress) → Here p → E Failure.cancelled p) (K : List Event → Type 0)
    (know : (p : Progress) → Here p → K p.events) where
  -- A call that may raise `f`: what it returns is an answer of the world.
  module _ {A : Type 0} (ev : Event) (quiet : Quiet ev) (answer : List Event → Reply A)
      (f : Failure) (fails : (p : Progress) → Here p → E f p) where
    ask-Ends :
        (p : Progress) (r : Reply A)
        → answer p.events ≡ r
        → Here p
        → Ends
            (λ a q. Here q × After (λ es. K es × (answer es ≡ Reply.returned a)) ev q.events)
            E
            (replied f r)
            (happen ev p)
    ask-Ends p (Reply.returned a) e h = (move ev quiet p h, After-now ev p.events (know p h, e))
    ask-Ends p Reply.raised e h = fails (happen ev p) (move ev quiet p h)
    ask-Ends p Reply.cancelled e h = stop (happen ev p) (move ev quiet p h)

    pub Triple-ask :
        Triple Here
          (ask ev answer f)
          (λ a q. Here q × After (λ es. K es × (answer es ≡ Reply.returned a)) ev q.events)
          E
    unfolding ask
    Triple-ask = record { at = λ p h. ask-Ends p (answer p.events) refl h }

  -- A call through the transport.
  module _ {A : Type 0} (ev : Event) (quiet : Quiet ev) (answer : List Event → Transported A)
      (refusal : (e : _) (p : Progress) → Here p → E (update_failed e) p)
      (crash : (p : Progress) → Here p → E unexpected p) where
    transport-Ends :
        (p : Progress) (r : Transported A)
        → answer p.events ≡ r
        → Here p
        → Ends
            (λ a q. Here q × After (λ es. K es × (answer es ≡ Transported.returned a)) ev q.events)
            E
            (transported r)
            (happen ev p)
    transport-Ends p (Transported.returned a) e h =
        (move ev quiet p h, After-now ev p.events (know p h, e))
    transport-Ends p (Transported.refused x) e h = refusal x (happen ev p) (move ev quiet p h)
    transport-Ends p Transported.crashed e h = crash (happen ev p) (move ev quiet p h)
    transport-Ends p Transported.cancelled e h = stop (happen ev p) (move ev quiet p h)

    pub Triple-transport :
        Triple Here
          (transport ev answer)
          (λ a q. Here q × After (λ es. K es × (answer es ≡ Transported.returned a)) ev q.events)
          E
    unfolding transport
    Triple-transport = record { at = λ p h. transport-Ends p (answer p.events) refl h }
