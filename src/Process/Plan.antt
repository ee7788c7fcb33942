-- ===== src/Process/Plan.antt =====
-- The comparison of a fresh plan with the one that was shown
-- (`_require_plan_unchanged` and `_require_cleanup_plan_unchanged` of
-- custom_components/hubinet_ops/packages/manager.py).
use hubinet_ops_next.Prelude.{
  ◌≡◌, refl, Bool, true, false, ◌&&◌, List, [], ◌∷◌, arith, text_eq, text_eq_iff,
}
use hubinet_ops_next.Models.{PendingPackage, RemovablePackage}
use hubinet_ops_next.Manager.Update.{PlanRow, package_plan, cleanup_plan}

abbrev pub row_eq : PlanRow → PlanRow → Bool
row_eq r s =
    (text_eq r.name s.name && text_eq r.architecture s.architecture)
    && (text_eq r.installed_version s.installed_version
        && text_eq r.candidate_version s.candidate_version)

abbrev pub removable_eq : RemovablePackage → RemovablePackage → Bool
removable_eq r s =
    (text_eq r.name s.name && text_eq r.architecture s.architecture)
    && text_eq r.installed_version s.installed_version

unfoldable pub rows_eq : List PlanRow → List PlanRow → Bool
rows_eq [] [] = true
rows_eq (r ∷ rs) (s ∷ ss) = row_eq r s && rows_eq rs ss
rows_eq _ _ = false

unfoldable pub removables_eq : List RemovablePackage → List RemovablePackage → Bool
removables_eq [] [] = true
removables_eq (r ∷ rs) (s ∷ ss) = removable_eq r s && removables_eq rs ss
removables_eq _ _ = false

-- `package_plan_tuple(fresh.packages) == reviewed_plan`
unfoldable pub same_plan : List PlanRow → List PendingPackage → Bool
unfolding rows_eq package_plan
same_plan reviewed fresh = rows_eq (package_plan fresh) reviewed

-- `cleanup_plan_tuple(fresh.packages) == shown_plan`
unfoldable pub same_cleanup : List RemovablePackage → List RemovablePackage → Bool
unfolding removables_eq cleanup_plan
same_cleanup shown fresh = removables_eq (cleanup_plan fresh) shown

both : (b c : Bool) → (b && c) ≡ true → (b ≡ true) × (c ≡ true)
both b c h = (ground arith, ground arith)

text_lem : (a b : _) → text_eq a b ≡ true → a ≡ b
text_lem a b h = (text_eq_iff a b).0 h

row_eq_lem : (r s : PlanRow) → row_eq r s ≡ true → r ≡ s
row_eq_lem r s h =
    let (left, right) = both _ _ h in
    let (a, b) = both _ _ left in
    let (c, d) = both _ _ right in
    let name : r.name ≡ s.name = text_lem r.name s.name a in
    let architecture : r.architecture ≡ s.architecture = text_lem _ _ b in
    let installed : r.installed_version ≡ s.installed_version = text_lem _ _ c in
    let candidate : r.candidate_version ≡ s.candidate_version = text_lem _ _ d in cc

removable_eq_lem : (r s : RemovablePackage) → removable_eq r s ≡ true → r ≡ s
removable_eq_lem r s h =
    let (left, c) = both _ _ h in
    let (a, b) = both _ _ left in
    let name : r.name ≡ s.name = text_lem _ _ a in
    let architecture : r.architecture ≡ s.architecture = text_lem _ _ b in
    let installed : r.installed_version ≡ s.installed_version = text_lem _ _ c in cc

rows_eq_lem : (r s : List PlanRow) → rows_eq r s ≡ true → r ≡ s
unfolding rows_eq
rows_eq_lem [] [] h = refl
rows_eq_lem [] (s ∷ ss) h = cc
rows_eq_lem (r ∷ rs) [] h = cc
rows_eq_lem (r ∷ rs) (s ∷ ss) h =
    let (a, b) = both (row_eq r s) _ h in
    let head : r ≡ s = row_eq_lem r s a in let tail : rs ≡ ss = rows_eq_lem rs ss b in cc

removables_eq_lem : (r s : List RemovablePackage) → removables_eq r s ≡ true → r ≡ s
unfolding removables_eq
removables_eq_lem [] [] h = refl
removables_eq_lem [] (s ∷ ss) h = cc
removables_eq_lem (r ∷ rs) [] h = cc
removables_eq_lem (r ∷ rs) (s ∷ ss) h =
    let (a, b) = both (removable_eq r s) _ h in
    let head : r ≡ s = removable_eq_lem r s a in
    let tail : rs ≡ ss = removables_eq_lem rs ss b in cc

-- The comparisons are those of the equality of the plans.
pub same_plan_lem :
    (reviewed : List PlanRow) (fresh : List PendingPackage)
    → same_plan reviewed fresh ≡ true
    → package_plan fresh ≡ reviewed
unfolding same_plan
same_plan_lem reviewed fresh h = rows_eq_lem (package_plan fresh) reviewed h

pub same_cleanup_lem :
    (shown fresh : List RemovablePackage)
    → same_cleanup shown fresh ≡ true
    → cleanup_plan fresh ≡ shown
unfolding same_cleanup
same_cleanup_lem shown fresh h = removables_eq_lem (cleanup_plan fresh) shown h
