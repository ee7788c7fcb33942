-- ===== src/EasyUpdate/Run.antt =====
-- What a call of Easy Update does to the manager (custom_components/hubinet_ops/easy_update.py).
use hubinet_ops_next.Prelude.{
  ℕ, ◌≡◌, ◌↔◌, ◌⊎◌, inl, inr, refl, ap, sym, ◌∙◌, true, false, not, ◌&&◌, Option, some, List, arith,
  Text,
}
use hubinet_ops_next.Prelude.Results.{Result, ok, err}
use hubinet_ops_next.Dict.{Key}
use hubinet_ops_next.Models.{ScanResult, UpdateRecord, UpdateError}
use hubinet_ops_next.Manager.State.{Manager, new_ref}
use hubinet_ops_next.Manager.Scan.{confirm_review}
use hubinet_ops_next.Manager.Update.{
  Attempt, PlanRow, start_update, package_plan, running_update, retire_evidence,
}
use hubinet_ops_next.Manager.Accept.{MayUpdate, start_update_iff, start_update_state}
use hubinet_ops_next.EasyUpdate.{Target, Call, Refusal, started, start_easy_update}
use hubinet_ops_next.EasyUpdate.Accept.{
  MayConfirm, confirmed, confirmed_plan, update_of, easy_update_cases, MayConfirm-confirm_review,
  reviewed_lem,
}

abbrev Start : Type 0
Start = Result UpdateError (Attempt (List PlanRow)) × Manager

started_ok :
    (k : Key) (p : Start) (r : UpdateRecord)
    → (started k p).0 ≡ ok r
    → (y : Attempt (List PlanRow)) × (p.0 ≡ ok y)
started_ok k (ok y, m) r h = (y, refl)
started_ok k (err e, m) r h = cc

started_some :
    (k : Key) (p : Start) (y : Attempt (List PlanRow))
    → p.0 ≡ ok y
    → (r : UpdateRecord) × ((started k p).0 ≡ ok r)
started_some k (ok z, m) y h = (_, refl)
started_some k (err e, m) y h = cc

started_err :
    (k : Key) (p : Start) (e : Refusal)
    → (started k p).0 ≡ err e
    → (f : UpdateError) × (p.0 ≡ err f)
started_err k (ok y, m) e h = cc
started_err k (err f, m) e h = (f, refl)

started_state : (k : Key) (p : Start) → (started k p).1 ≡ p.1
started_state k (ok y, m) = refl
started_state k (err f, m) = refl

pair_lem :
    (p : Start) (y : Attempt (List PlanRow)) (m : Manager) → p.0 ≡ ok y → p.1 ≡ m → p ≡ (ok y, m)
pair_lem p y m h q = cc

some_plan : {p q : List PlanRow} {o : Option (List PlanRow)} → o ≡ some p → o ≡ some q → q ≡ p
some_plan h k = cc

module _ (k : Key) (c : Call) (g : Target) (at : ℕ) (m : Manager) where
  -- What Update asks for once the scan with this token is confirmed.
  abbrev pub MayStart : Text → Type 0
  MayStart token =
      MayUpdate k true g.snapshot_permission c.skip_snapshot (confirmed k c g at m token)

  MayConfirm-start :
      (token : Text) (x : ScanResult)
      → MayConfirm k c g m token x
      → start_easy_update k c g at m ≡ started k (update_of k c g at m token)
  unfolding start_easy_update
  MayConfirm-start token x may =
      let permitted : (not c.skip_snapshot && not g.snapshot_permission) ≡ false = ground arith in
      rw
        (
          may.last_update_success, may.is_running, may.current, may.has_packages, may.expected,
          permitted, may.no_create, may.idle,
        )
        (reviewed_lem k c g at m (confirm_review k token m)
          (MayConfirm-confirm_review k c g at m token x may))

  abbrev Accepted : Type 0
  Accepted = (r : UpdateRecord) × ((start_easy_update k c g at m).0 ≡ ok r)

  accepted_run :
      (r : UpdateRecord)
      → (start_easy_update k c g at m).0 ≡ ok r
      → (token : Text) × (x : ScanResult) × (y : Attempt (List PlanRow)) × MayConfirm k c g m token
          x
        × (start_easy_update k c g at m ≡ started k (update_of k c g at m token))
        × ((update_of k c g at m token).0 ≡ ok y)
  accepted_run r h = elim (easy_update_cases k c g at m) [
    | inl (same, (e, q)) ↦ cc
    | inr (token, x, may, q) ↦
        let (y, started_y) =
          started_ok k (update_of k c g at m token) r (sym (ap (λ p. p.0) q) ∙ h) in
        (token, x, y, may, q, started_y)
  ]

  -- Easy Update is accepted exactly when the shown data are current, the guest runs, a snapshot is
  -- permitted or skipped, a skipped one does not cross a running Create, nothing of the guest is
  -- active, the stored scan is a success with a token and packages and the one that the caller
  -- expects, and Update accepts once this scan is confirmed.
  pub start_easy_update_iff :
      ((r : UpdateRecord) × ((start_easy_update k c g at m).0 ≡ ok r))
      ↔ ((token : Text) × (x : ScanResult) × MayConfirm k c g m token x × MayStart token)
  start_easy_update_iff = (
    λ (r, h).
        let (token, x, y, may, q, started_y) = accepted_run r h in
        (
          token,
          x,
          may,
          ((start_update_iff k true g.snapshot_permission c.skip_snapshot at
                (confirmed k c g at m token) y).0
              started_y).0,
        ),
    λ (token, x, may, start).
        let y : Attempt (List PlanRow) = record {
          own =
              new_ref (running_update at c.skip_snapshot)
                (retire_evidence k (confirmed k c g at m token));
          plan = package_plan x.packages;
        } in
        let (r, h) = started_some k (update_of k c g at m token) y (
          (start_update_iff k true g.snapshot_permission c.skip_snapshot at
              (confirmed k c g at m token) y).1
            (start, confirmed_plan k c g at m token x may, refl)) in
        (r, ap (λ p. p.0) (MayConfirm-start token x may) ∙ h),
  )

  -- An accepted Easy Update is the confirmation of the stored scan by its own token and then the
  -- start of Update, and the attempt carries the packages of this scan as its plan.
  pub start_easy_update_plan :
      (r : UpdateRecord)
      → (start_easy_update k c g at m).0 ≡ ok r
      → (token : Text) × (x : ScanResult) × (y : Attempt (List PlanRow)) × MayConfirm k c g m token
          x
        × (start_update k true g.snapshot_permission c.skip_snapshot at (confirm_review k token m).1
            ≡ (ok y, (start_easy_update k c g at m).1))
        × (y.plan ≡ package_plan x.packages)
  start_easy_update_plan r h =
      let (token, x, y, may, q, started_y) = accepted_run r h in
      (
        token,
        x,
        y,
        may,
        pair_lem (update_of k c g at m token) y _ started_y
            (sym (started_state k (update_of k c g at m token)) ∙ sym (ap (λ p. p.1) q)),
        some_plan (confirmed_plan k c g at m token x may)
            ((start_update_iff k true g.snapshot_permission c.skip_snapshot at
                (confirmed k c g at m token) y).0
              started_y).1,
      )

  -- A refused Easy Update leaves the manager as it was, or it has confirmed the stored scan, which
  -- passed every check, and it is Update that then refused.
  pub start_easy_update_refused :
      (e : Refusal)
      → (start_easy_update k c g at m).0 ≡ err e
      → ((start_easy_update k c g at m).1 ≡ m)
        ⊎ ((token : Text) × (x : ScanResult) × (f : UpdateError) × MayConfirm k c g m token x
            × ((start_update k true g.snapshot_permission c.skip_snapshot at
                  (confirm_review k token m).1).0
                ≡ err f)
            × ((start_easy_update k c g at m).1 ≡ (confirm_review k token m).1))
  start_easy_update_refused e h = elim (easy_update_cases k c g at m) [
    | inl (same, q) ↦ inl same
    | inr (token, x, may, q) ↦
        let (f, refusal) =
          started_err k (update_of k c g at m token) e (sym (ap (λ p. p.0) q) ∙ h) in
        inr (
          token,
          x,
          f,
          may,
          refusal,
          ap (λ p. p.1) q
              ∙ started_state k (update_of k c g at m token)
              ∙ (start_update_state k true g.snapshot_permission c.skip_snapshot at
                    (confirmed k c g at m token)).1
                  f refusal,
        )
  ]
