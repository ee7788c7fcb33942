-- ===== src/EasyUpdate/Accept.antt =====
-- When Easy Update accepts, and what it leaves on a refusal
-- (custom_components/hubinet_ops/easy_update.py).
use hubinet_ops_next.Prelude.{
  ℕ, ◌≡◌, ◌⊎◌, inl, inr, refl, ◌∙◌, Bool, true, false, not, ◌&&◌, some, List, arith, is_empty, Text,
  Bool-cases, Option-cases, if◌then◌else◌,
}
use hubinet_ops_next.Prelude.Results.{Result, err}
use hubinet_ops_next.Dict.{Key, get}
use hubinet_ops_next.Models.{ScanRecord, ScanResult, UpdateRecord, UpdateError, scan_success}
use hubinet_ops_next.Manager.State.{Manager, Ref, scan_record}
use hubinet_ops_next.Manager.Scan.{confirm_review, has_plan}
use hubinet_ops_next.Manager.Update.{Attempt, PlanRow, start_update, package_plan, reviewed_plan}
use hubinet_ops_next.Manager.Evidence.{confirm_review_iff, confirm_review_plan}
use hubinet_ops_next.EasyUpdate.{
  Target, Call, Refusal, is_expected, is_active, current_scan, checked, reviewed, started,
  start_easy_update,
}

-- What Easy Update asks for before it confirms the scan with this token and these packages.
pub record MayConfirm (k : Key) (c : Call) (g : Target) (m : Manager) (token : Text)
    (x : ScanResult) : Type 0 where
  pub current : current_scan (scan_record k m) ≡ some (token, x)
  pub last_update_success : g.last_update_success ≡ true
  pub is_running : g.is_running ≡ true
  pub has_packages : is_empty x.packages ≡ false
  pub expected : is_expected c (scan_record k m).last_attempt ≡ true
  pub permitted : (c.skip_snapshot ≡ true) ⊎ (g.snapshot_permission ≡ true)
  pub no_create : (c.skip_snapshot && g.create_running) ≡ false
  pub idle : is_active k m ≡ false

abbrev Outcome : Type 0
Outcome = Result Refusal UpdateRecord × Manager

guarded :
    (Q : Outcome → Type 0) (b : Bool) (halt rest : Outcome)
    → Q halt
    → (b ≡ false → Q rest)
    → Q (if b then halt else rest)
guarded Q true halt rest stop next = stop
guarded Q false halt rest stop next = next refl

current_lem :
    (r : ScanRecord) (token : Text) (x : ScanResult)
    → current_scan r ≡ some (token, x)
    → (scan_success r.status ≡ true) × (r.result ≡ some x) × (r.token ≡ some token)
unfolding current_scan
current_lem r token x h = elim (Bool-cases (scan_success r.status)) [
  | inr e ↦ ground (arith, e, h)
  | inl e ↦ elim (Option-cases r.result) [
    | inl f ↦ ground (arith, e, f, h)
    | inr (y, f) ↦ elim (Option-cases r.token) [
      | inl q ↦ ground (arith, e, f, q, h)
      | inr (u, q) ↦ ground (arith, e, f, q, h)
    ]
  ]
]

module _ (k : Key) (c : Call) (g : Target) (at : ℕ) (m : Manager) where
  -- Refused with the manager as it was, or all is there and the review is confirmed.
  abbrev IsSplit : Outcome → Type 0
  IsSplit r =
      ((r.1 ≡ m) × ((e : Refusal) × (r.0 ≡ err e)))
      ⊎ ((token : Text) × (x : ScanResult) × MayConfirm k c g m token x
          × (r ≡ reviewed k c g at (confirm_review k token m)))

  abbrev stop : (e : Refusal) → IsSplit (err e, m)
  stop e = inl (refl, (e, refl))

  checked_split :
      (token : Text) (x : ScanResult)
      → current_scan (scan_record k m) ≡ some (token, x)
      → g.last_update_success ≡ true
      → g.is_running ≡ true
      → IsSplit (checked k c g at m token x)
  checked_split token x current fresh running =
      guarded IsSplit (is_empty x.packages) _ _ (stop _) λ e1.
        guarded IsSplit (not (is_expected c (scan_record k m).last_attempt)) _ _ (stop _) λ e2.
          guarded IsSplit (not c.skip_snapshot && not g.snapshot_permission) _ _ (stop _) λ e3.
            guarded IsSplit (c.skip_snapshot && g.create_running) _ _ (stop _) λ e4.
              guarded IsSplit (is_active k m) _ _ (stop _) λ e5. inr (
                token,
                x,
                record {
                  current = current;
                  last_update_success = fresh;
                  is_running = running;
                  has_packages = e1;
                  expected = ground arith;
                  permitted = ground arith;
                  no_create = e4;
                  idle = e5;
                },
                refl,
              )

  start_split : IsSplit (start_easy_update k c g at m)
  unfolding start_easy_update
  start_split = guarded IsSplit (not g.last_update_success) _ _ (stop _) λ e1.
      guarded IsSplit (not g.is_running) _ _ (stop _) λ e2.
        elim (Option-cases (current_scan (scan_record k m))) [
          | inl e ↦ rw e (stop _)
          | inr ((token, x), e) ↦ rw e (checked_split token x e (ground arith) (ground arith))
        ]

  abbrev pub confirmed : Text → Manager
  confirmed token = (confirm_review k token m).1

  current_of :
      (r : Ref ScanRecord) (token : Text) (x : ScanResult)
      → get k m.records ≡ some r
      → current_scan (scan_record k m) ≡ some (token, x)
      → current_scan r.value ≡ some (token, x)
  unfolding scan_record
  current_of r token x e = rw e λ h. h

  -- The stored scan that Easy Update goes on from.
  stored :
      (token : Text) (x : ScanResult)
      → MayConfirm k c g m token x
      → (r : Ref ScanRecord) × (get k m.records ≡ some r)
        × (has_plan r.value ≡ true)
        × (r.value.token ≡ some token)
        × (r.value.result ≡ some x)
  unfolding scan_record has_plan current_scan
  stored token x may = elim (Option-cases (get k m.records)) [
    | inl e ↦ ground (arith, e, may.current)
    | inr (r, e) ↦
        let (success, result, held) =
          current_lem r.value token x (current_of r token x e may.current) in
        (r, e, rw (success, result, may.has_packages) refl, held, result)
  ]

  pub MayConfirm-confirm_review :
      (token : Text) (x : ScanResult)
      → MayConfirm k c g m token x
      → (confirm_review k token m).0 ≡ true
  MayConfirm-confirm_review token x may =
      let (r, e, plan, held, result) = stored token x may in
      (confirm_review_iff k token m).1 (r, e, plan, held)

  pub confirmed_plan :
      (token : Text) (x : ScanResult)
      → MayConfirm k c g m token x
      → reviewed_plan (get k (confirmed token).records) ≡ some (package_plan x.packages)
  confirmed_plan token x may =
      let (r, e, plan, held, result) = stored token x may in
      confirm_review_plan k token m r x e result (MayConfirm-confirm_review token x may)

  pub reviewed_lem :
      (p : Bool × Manager)
      → p.0 ≡ true
      → reviewed k c g at p
        ≡ started k (start_update k true g.snapshot_permission c.skip_snapshot at p.1)
  reviewed_lem (true, n) h = refl
  reviewed_lem (false, n) h = ground arith

  -- The start of Update on the confirmed scan.
  abbrev pub update_of : Text → Result UpdateError (Attempt (List PlanRow)) × Manager
  update_of token = start_update k true g.snapshot_permission c.skip_snapshot at (confirmed token)

  -- Refused with the manager as it was, or the review is confirmed and Update is asked.
  pub easy_update_cases :
      ((start_easy_update k c g at m).1 ≡ m
        × ((e : Refusal) × ((start_easy_update k c g at m).0 ≡ err e)))
      ⊎ ((token : Text) × (x : ScanResult) × MayConfirm k c g m token x
          × (start_easy_update k c g at m ≡ started k (update_of token)))
  easy_update_cases = elim start_split [
    | inl h ↦ inl h
    | inr (token, x, may, e) ↦ inr (
      token,
      x,
      may,
      e ∙ reviewed_lem (confirm_review k token m) (MayConfirm-confirm_review token x may),
    )
  ]
