-- ===== src/Process/Hoare.antt =====
-- Rules for the processes of custom_components/hubinet_ops/packages/manager.py and snapshots.py:
-- what holds when a process returns, and when it fails.
use hubinet_ops_next.Prelude.{Bool, true, false, if◌then◌else◌}
use hubinet_ops_next.Prelude.Results.{Result, ok, err}
use hubinet_ops_next.Process.{Failure, Progress, Proc, ◌>>=◌, proceed}

abbrev pub Ends :
    {A : Type 0}
    → (A → Progress → Type 0)
    → (Failure → Progress → Type 0)
    → Result Failure A
    → Progress
    → Type 0
Ends Q E (ok a) p = Q a p
Ends Q E (err f) p = E f p

-- From `P` the process returns with `Q` or fails with `E`.
pub record Triple {A : Type 0} (P : Progress → Type 0) (m : Proc A) (Q : A → Progress → Type 0)
    (E : Failure → Progress → Type 0) : Type 0 where
  pub at : (p : Progress) → P p → Ends Q E (m p).0 (m p).1

module _ {A B : Type 0} {E : Failure → Progress → Type 0} where
  proceed-Ends :
      {M : A → Progress → Type 0} {Q : B → Progress → Type 0} (r : Result Failure A)
      (f : A → Proc B) (p : Progress)
      → Ends M E r p
      → ((a : A) → Triple (M a) (f a) Q E)
      → Ends Q E (proceed r f p).0 (proceed r f p).1
  proceed-Ends (ok a) f p h k = (k a).at p h
  proceed-Ends (err e) f p h k = h

  pub Triple-bind :
      {P : Progress → Type 0} {M : A → Progress → Type 0} {Q : B → Progress → Type 0} {m : Proc A}
      {f : A → Proc B}
      → Triple P m M E
      → ((a : A) → Triple (M a) (f a) Q E)
      → Triple P (m >>= f) Q E
  unfolding ◌>>=◌
  Triple-bind {m} {f} s k = record { at = λ p h. proceed-Ends (m p).0 f (m p).1 (s.at p h) k }

pub Ends-if :
    {A : Type 0} (Q : A → Progress → Type 0) (E : Failure → Progress → Type 0) (b : Bool)
    (x y : Result Failure A × Progress)
    → Ends Q E x.0 x.1
    → Ends Q E y.0 y.1
    → Ends Q E (if b then x else y).0 (if b then x else y).1
Ends-if Q E true x y h k = h
Ends-if Q E false x y h k = k

map-Ends :
    {A : Type 0} {Q R : A → Progress → Type 0} {E F : Failure → Progress → Type 0}
    → ((a : A) (p : Progress) → Q a p → R a p)
    → ((f : Failure) (p : Progress) → E f p → F f p)
    → (r : Result Failure A) (p : Progress) → Ends Q E r p
    → Ends R F r p
map-Ends j k (ok a) p h = j a p h
map-Ends j k (err f) p h = k f p h

-- Less may be said of a return and of a failure.
pub Triple-map :
    {A : Type 0} {P : Progress → Type 0} {m : Proc A} {Q R : A → Progress → Type 0}
    {E F : Failure → Progress → Type 0}
    → ((a : A) (p : Progress) → Q a p → R a p)
    → ((f : Failure) (p : Progress) → E f p → F f p)
    → Triple P m Q E
    → Triple P m R F
Triple-map {m} j k t = record { at = λ p h. map-Ends j k (m p).0 (m p).1 (t.at p h) }

-- A stage may be entered from another by what is known of the progress.
pub Triple-pre :
    {A : Type 0} {P P' : Progress → Type 0} {m : Proc A} {Q : A → Progress → Type 0}
    {E : Failure → Progress → Type 0}
    → ((p : Progress) → P' p → P p)
    → Triple P m Q E
    → Triple P' m Q E
Triple-pre j t = record { at = λ p h. t.at p (j p h) }
