-- ===== src/Process/Attempt.antt =====
-- What a whole run of Update or Autoremove promises, however its calls answer
-- (custom_components/hubinet_ops/packages/manager.py).
use hubinet_ops_next.Prelude.{ℕ, ◌≡◌, Bool, false, List, [], ◌∷◌, ◌++◌, Text}
use hubinet_ops_next.Prelude.Results.{Result}
use hubinet_ops_next.Models.{UpdateStatus, PendingPackage, RemovablePackage}
use hubinet_ops_next.Snapshots.{Unicode}
use hubinet_ops_next.Manager.Update.{PlanRow, package_plan, cleanup_plan}
use hubinet_ops_next.Process.{Event, mutated, World, Failure, Progress}
use hubinet_ops_next.Process.History.{Complete, creations}
use hubinet_ops_next.Process.Plan.{same_plan, same_plan_lem, same_cleanup, same_cleanup_lem}
use hubinet_ops_next.Process.Outcome.{update_outcome, cleanup_outcome, run_update, run_autoremove}
use hubinet_ops_next.Process.Ended.{
  Succeeded, Traced, Ended, run-Ended, protected, update_success, cleanup_success, update-Traced,
  cleanup-Traced,
}

-- The plan that was reviewed, and the one that was shown.
abbrev pub IsReviewed : List PlanRow → List PendingPackage → Type 0
IsReviewed reviewed fresh = package_plan fresh ≡ reviewed

abbrev pub IsShown : List RemovablePackage → List RemovablePackage → Type 0
IsShown shown fresh = cleanup_plan fresh ≡ shown

module _ (u : Unicode) (w : World PendingPackage) (reviewed : List PlanRow) where
  abbrev update_end : Result Failure Bool × Progress
  update_end = run_update u w reviewed false

  update-Ended :
      Ended u w
        (same_plan reviewed)
        (IsReviewed reviewed)
        (same_plan_lem reviewed)
        update_end.0
        update_end.1
  unfolding run_update
  update-Ended = run-Ended u w (same_plan reviewed) (IsReviewed reviewed) (same_plan_lem reviewed) _

  -- However the calls answer, each mutation of `_async_run_update` with a snapshot stands after the
  -- following, in this order: a fresh plan whose tuples are those of the reviewed one, the submission
  -- of a snapshot, and a listing that showed that snapshot complete.
  pub run_update-Protected :
      (before later : List Event)
      → (run_update u w reviewed false).1.events ≡ before ++ (mutated ∷ later)
      → (n : Text) × Complete u w (IsReviewed reviewed) n before
  run_update-Protected =
      protected u w (same_plan reviewed) (IsReviewed reviewed) (same_plan_lem reviewed) update_end.0
        update_end.1 update-Ended

  -- An update with a snapshot that is recorded as a success went through the following, in this
  -- order: a fresh plan that was the reviewed one, the submission of its snapshot, a listing that
  -- showed it complete, the mutation, and a ping that the guest answered. Its record names the
  -- snapshot, or after that ping its deletion was submitted and a later listing lacked it.
  pub update_success_honest :
      (at : ℕ)
      → (update_outcome at false
          (run_update u w reviewed false).0
          (run_update u w reviewed false).1).status
        ≡ UpdateStatus.success
      → Succeeded u w
          (IsReviewed reviewed)
          (update_outcome at false
            (run_update u w reviewed false).0
            (run_update u w reviewed false).1)
          (run_update u w reviewed false).1.events
  update_success_honest at =
      update_success u w (same_plan reviewed) (IsReviewed reviewed) (same_plan_lem reviewed) at
        update_end.0 update_end.1 update-Ended

  -- However an update with a snapshot ends, at most one creation was submitted, and the record names
  -- that snapshot, or a listing after the submission lacked it, or one after its deletion did.
  pub run_update-Traced :
      (at : ℕ) (n : Text) (ns : List Text)
      → creations (run_update u w reviewed false).1.events ≡ n ∷ ns
      → (ns ≡ [])
        × Traced u w
            (IsReviewed reviewed)
            n
            (update_outcome at false
              (run_update u w reviewed false).0
              (run_update u w reviewed false).1)
            (run_update u w reviewed false).1.events
  run_update-Traced at =
      update-Traced u w (same_plan reviewed) (IsReviewed reviewed) (same_plan_lem reviewed) at
        update_end.0 update_end.1 update-Ended

module _ (u : Unicode) (w : World RemovablePackage) (shown : List RemovablePackage) where
  abbrev cleanup_end : Result Failure Bool × Progress
  cleanup_end = run_autoremove u w shown

  autoremove-Ended :
      Ended u w
        (same_cleanup shown)
        (IsShown shown)
        (same_cleanup_lem shown)
        cleanup_end.0
        cleanup_end.1
  unfolding run_autoremove
  autoremove-Ended = run-Ended u w (same_cleanup shown) (IsShown shown) (same_cleanup_lem shown) _

  -- However the calls answer, each mutation of `_async_run_autoremove` stands after the following, in
  -- this order: a fresh cleanup plan that is the one that was shown, the submission of a snapshot,
  -- and a listing that showed that snapshot complete.
  pub run_autoremove-Protected :
      (before later : List Event)
      → (run_autoremove u w shown).1.events ≡ before ++ (mutated ∷ later)
      → (n : Text) × Complete u w (IsShown shown) n before
  run_autoremove-Protected =
      protected u w (same_cleanup shown) (IsShown shown) (same_cleanup_lem shown) cleanup_end.0
        cleanup_end.1 autoremove-Ended

  -- A run of Autoremove that is recorded as a success went through the following, in this order: a
  -- fresh cleanup plan that was the one shown, the submission of its snapshot, a listing that showed
  -- it complete, the mutation, and a ping that the guest answered. Its record names the snapshot, or
  -- after that ping its deletion was submitted and a later listing lacked it.
  pub autoremove_success_honest :
      (at : ℕ)
      → (cleanup_outcome at (run_autoremove u w shown).0 (run_autoremove u w shown).1).status
        ≡ UpdateStatus.success
      → Succeeded u w
          (IsShown shown)
          (cleanup_outcome at (run_autoremove u w shown).0 (run_autoremove u w shown).1)
          (run_autoremove u w shown).1.events
  autoremove_success_honest at =
      cleanup_success u w (same_cleanup shown) (IsShown shown) (same_cleanup_lem shown) at
        cleanup_end.0 cleanup_end.1 autoremove-Ended

  -- However a run of Autoremove ends, at most one creation was submitted, and the record names that
  -- snapshot, or a listing after the submission lacked it, or one after its deletion did.
  pub run_autoremove-Traced :
      (at : ℕ) (n : Text) (ns : List Text)
      → creations (run_autoremove u w shown).1.events ≡ n ∷ ns
      → (ns ≡ [])
        × Traced u w
            (IsShown shown)
            n
            (cleanup_outcome at (run_autoremove u w shown).0 (run_autoremove u w shown).1)
            (run_autoremove u w shown).1.events
  run_autoremove-Traced at =
      cleanup-Traced u w (same_cleanup shown) (IsShown shown) (same_cleanup_lem shown) at
        cleanup_end.0 cleanup_end.1 autoremove-Ended
