-- ===== src/Native/Honest.antt =====
-- When a native task is said to have succeeded (custom_components/hubinet_ops/snapshots.py).
use hubinet_ops_next.Prelude.{
  ◌≡◌, refl, sym, subst, inl, inr, ℕ, zero, suc, ◌+◌, ◌≤◌, ◌<◌, Bool, true, ◌||◌, Option, none,
  some, List, arith, Text, codes, leb, ◌==◌, Bool-cases, if_cases,
}
use hubinet_ops_next.Snapshots.{Field, field_is}
use hubinet_ops_next.Native.Task.{
  RestoreOutcome, RestoreResult, Status, failing, no_answer, task, no_mapping, Look, Event,
  task_succeeded, classify, unobserved, after_status, observe,
}

-- This attempt saw the task stopped with success.
abbrev pub HasSucceeded : Status → Type 0
HasSucceeded (task status exit shown) =
    (field_is (codes "stopped") status ≡ true) × (task_succeeded exit ≡ true)
HasSucceeded _ = ⊥

abbrev pub IsSuccess : RestoreResult → Type 0
IsSuccess r = r.outcome ≡ RestoreOutcome.success

module _ (is_space : ℕ → Bool) (upid : Text) (deadline : ℕ) (attempt : ℕ → Look) where
  -- One of the attempts from a number on, fewer than a bound.
  abbrev SeenFrom : ℕ → ℕ → Type 0
  SeenFrom i left = (j : ℕ) × (i ≤ j) × (j < i + left) × HasSucceeded (attempt j).status

  unobserved-success : (e : Option Text) → IsSuccess (unobserved is_space upid e) → {A : Type 0} → A
  unfolding unobserved
  unobserved-success none h = cc
  unobserved-success (some e) h = cc

  classify-success :
      (status exit : Field) (shown : Text)
      → IsSuccess (classify is_space upid status exit shown)
      → HasSucceeded (task status exit shown)
  unfolding classify
  classify-success status exit shown = elim (Bool-cases (field_is (codes "stopped") status)) [
    | inr e ↦ rw e λ h. cc
    | inl e ↦ elim (Bool-cases (task_succeeded exit)) [
      | inr f ↦ rw (e, f) λ h. cc
      | inl f ↦ λ h. (e, f)
    ]
  ]

  SeenFrom-next : (i left : ℕ) → SeenFrom (suc i) left → SeenFrom i (suc left)
  SeenFrom-next i left (j, low, high, seen) = (j, omega arith, omega arith, seen)

  after_status-success :
      (i left : ℕ) (last : Bool) (next : Text → RestoreResult × List Event) (s : Status)
      → (attempt i).status ≡ s
      → ((e : Text) → IsSuccess (next e).0 → SeenFrom (suc i) left)
      → IsSuccess (after_status is_space upid deadline (attempt i) last next s).0
      → SeenFrom i (suc left)
  after_status-success i left last next (failing e) q later =
      if_cases (λ (r : RestoreResult × List Event). IsSuccess r.0 → SeenFrom i (suc left))
        (last || leb deadline (attempt i).later) _ _ (λ f h. unobserved-success (some e) h)
        λ f h. SeenFrom-next i left (later e h)
  after_status-success i left last next no_answer q later = λ h. cc
  after_status-success i left last next (task status exit shown) q later = λ h. (
    i,
    omega arith,
    omega arith,
    subst HasSucceeded (sym q) (classify-success status exit shown h),
  )
  after_status-success i left last next no_mapping q later = λ h. cc

  -- The loop says success only where one of its attempts saw the task stopped with success.
  pub observe-success :
      (e : Option Text) (left i : ℕ)
      → IsSuccess (observe is_space upid deadline attempt e left i).0
      → SeenFrom i left
  unfolding observe
  observe-success e zero i = λ h. unobserved-success e h
  observe-success e (suc left) i =
      if_cases (λ (r : RestoreResult × List Event). IsSuccess r.0 → SeenFrom i (suc left))
        (leb deadline (attempt i).now) _ _ (λ f h. unobserved-success e h)
        λ f.
          after_status-success i left (left == 0) _ (attempt i).status refl
            λ e h. observe-success (some e) left (suc i) h
