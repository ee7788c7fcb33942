-- ===== src/Parser/Order.antt =====
-- `sorted` with the key `(name, architecture)` (custom_components/hubinet_ops/packages/parser.py).
use hubinet_ops_next.Prelude.{
  ◌≡◌, ◌∙◌, refl, inl, inr, Bool, true, false, ◌&&◌, ◌||◌, List, [], ◌∷◌, ◌++◌, arith, text_eq,
  text_eq_iff, if◌then◌else◌, any, Bool-cases, All,
}
use hubinet_ops_next.Models.{PackageId}
use hubinet_ops_next.Snapshots.{text_lt}
use hubinet_ops_next.Process.Run.{id_eq}
use hubinet_ops_next.Snapshots.Laws.{text_lt_total}

unfoldable pub id_lt : PackageId → PackageId → Bool
id_lt a b =
    text_lt a.name b.name || (text_eq a.name b.name && text_lt a.architecture b.architecture)

id_lt_total : (a b : PackageId) → id_eq a b ≡ false → id_lt a b ≡ false → id_lt b a ≡ true
unfolding id_lt
id_lt_total a b h k = ground (
  arith,
  text_eq_iff a.name b.name,
  text_eq_iff b.name a.name,
  text_lt_total a.name b.name,
  text_lt_total a.architecture b.architecture,
)

module _ {A : Type 0} (key : A → PackageId) where
  -- A value goes before the first one that is not below it, so equal ones keep their order.
  unfoldable pub insert : A → List A → List A
  insert a [] = a ∷ []
  insert a (b ∷ l) = let rest = insert a l in if id_lt (key b) (key a) then b ∷ rest else a ∷ b ∷ l

  unfoldable pub sorted : List A → List A
  unfolding insert
  sorted [] = []
  sorted (a ∷ l) = insert a (sorted l)

  -- Whether a value with this key is among them.
  abbrev pub has_key : PackageId → List A → Bool
  has_key i = any (λ a. id_eq (key a) i)

  abbrev Above : PackageId → List A → Type 0
  Above i [] = Unit
  Above i (a ∷ l) = id_lt i (key a) ≡ true

  -- Each key is below the next one.
  abbrev pub IsIncreasing : List A → Type 0
  IsIncreasing [] = Unit
  IsIncreasing (a ∷ l) = Above (key a) l × IsIncreasing l

  -- No two keys are the same.
  abbrev pub IsDistinct : List A → Type 0
  IsDistinct [] = Unit
  IsDistinct (a ∷ l) = (has_key (key a) l ≡ false) × IsDistinct l

  insert-All : (Q : A → Type 0) (a : A) (l : List A) → Q a → All Q l → All Q (insert a l)
  unfolding insert
  insert-All Q a [] q h = (q, tt)
  insert-All Q a (b ∷ l) q (h, hs) = elim (Bool-cases (id_lt (key b) (key a))) [
    | inl e ↦ rw e (h, insert-All Q a l q hs)
    | inr e ↦ rw e (q, (h, hs))
  ]

  pub sorted-All : (Q : A → Type 0) (l : List A) → All Q l → All Q (sorted l)
  unfolding sorted
  sorted-All Q [] h = tt
  sorted-All Q (a ∷ l) (h, hs) = insert-All Q a (sorted l) h (sorted-All Q l hs)

  any-insert : (p : A → Bool) (a : A) (l : List A) → any p (insert a l) ≡ (p a || any p l)
  unfolding insert
  any-insert p a [] = refl
  any-insert p a (b ∷ l) = ground (arith, any-insert p a l)

  pub any-sorted : (p : A → Bool) (l : List A) → any p (sorted l) ≡ any p l
  unfolding sorted
  any-sorted p [] = refl
  any-sorted p (a ∷ l) = ground (arith, any-insert p a (sorted l), any-sorted p l)

  insert-Above :
      (i : PackageId) (a : A) (l : List A)
      → Above i l
      → id_lt i (key a) ≡ true
      → Above i (insert a l)
  unfolding insert
  insert-Above i a [] h k = k
  insert-Above i a (b ∷ l) h k = elim (Bool-cases (id_lt (key b) (key a))) [
    | inl e ↦ rw e h
    | inr e ↦ rw e k
  ]

  insert-IsIncreasing :
      (a : A) (l : List A) → has_key (key a) l ≡ false → IsIncreasing l → IsIncreasing (insert a l)
  unfolding insert
  insert-IsIncreasing a [] h k = (tt, tt)
  insert-IsIncreasing a (b ∷ l) h (k, ks) = elim (Bool-cases (id_lt (key b) (key a))) [
    | inl e ↦ rw e (insert-Above (key b) a l k e, insert-IsIncreasing a l (ground arith) ks)
    | inr e ↦ rw e (id_lt_total (key b) (key a) (ground arith) e, (k, ks))
  ]

  -- Sorting distinct keys puts them in strictly increasing order.
  pub sorted-IsIncreasing : (l : List A) → IsDistinct l → IsIncreasing (sorted l)
  unfolding sorted
  sorted-IsIncreasing [] h = tt
  sorted-IsIncreasing (a ∷ l) (h, hs) =
      insert-IsIncreasing a (sorted l) (any-sorted _ l ∙ h) (sorted-IsIncreasing l hs)

  pub append-All : (Q : A → Type 0) (l : List A) (a : A) → All Q l → Q a → All Q (l ++ a ∷ [])
  append-All Q [] a h q = (q, tt)
  append-All Q (b ∷ l) a (h, hs) q = (h, append-All Q l a hs q)

  append-has_key :
      (i : PackageId) (l : List A) (a : A)
      → has_key i (l ++ a ∷ []) ≡ (has_key i l || id_eq (key a) i)
  append-has_key i [] a = ground arith
  append-has_key i (b ∷ l) a = ground (arith, append-has_key i l a)

  -- A value whose key is new goes behind the others.
  pub append-IsDistinct :
      (l : List A) (a : A)
      → IsDistinct l
      → any (λ b. id_eq (key a) (key b)) l ≡ false
      → IsDistinct (l ++ a ∷ [])
  append-IsDistinct [] a h k = (refl, tt)
  append-IsDistinct (b ∷ l) a (h, hs) k =
      (ground (arith, append-has_key (key b) l a), append-IsDistinct l a hs (ground arith))
