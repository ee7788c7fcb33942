-- ===== src/Manager/Ownership.antt =====
-- Object identity in `PackageManager` (custom_components/hubinet_ops/packages/manager.py): the
-- attempts that are under way, and the records that they compare with `is own_record`.
use hubinet_ops_next.Prelude.{
  ap, ℕ, ◌+◌, ◌≤◌, ◌<◌, ◌≡◌, ◌⊎◌, inl, inr, true, some, List, [], ◌∷◌, arith,
}
use hubinet_ops_next.Dict.{Key, Dict, get, put, pop}
use hubinet_ops_next.Dict.Laws.{get-put, get-pop}
use hubinet_ops_next.Models.{UpdateRecord, update_running}
use hubinet_ops_next.Manager.State.{Ref, update_is_running}

-- An attempt that is under way: its target and its own record.
abbrev pub Run : Type 0
Run = Key × Ref UpdateRecord

abbrev pub In : Run → List Run → Type 0
In x [] = ⊥
In x (y ∷ ys) = (x ≡ y) ⊎ In x ys

-- The attempts `l` and the stored records `d` agree, where the next object has the number `f`:
-- numbers are fresh, an own record is RUNNING, and whatever is stored under the number of an own
-- record is that record.
pub record Owned (f : ℕ) (d : Dict (Ref UpdateRecord)) (l : List Run) : Type 0 where
  pub stored_lt : (k : Key) (r : Ref UpdateRecord) → get k d ≡ some r → r.object < f
  pub own_lt : (k : Key) (o : Ref UpdateRecord) → In (k, o) l → o.object < f
  pub own_running : (k : Key) (o : Ref UpdateRecord) → In (k, o) l → update_is_running o ≡ true
  pub own_same :
      (k j : Key) (o r : Ref UpdateRecord)
      → In (k, o) l
      → get j d ≡ some r
      → r.object ≡ o.object
      → r ≡ o

run_eq : {k j : Key} {o r : Ref UpdateRecord} → ◌≡◌ {A = Run} (j, o) (k, r) → o ≡ r
run_eq e = ap (λ (x : Run). x.1) e

module _ {f : ℕ} {d : Dict (Ref UpdateRecord)} {l : List Run} where
  pub Owned-mono : {f' : ℕ} → f ≤ f' → Owned f d l → Owned f' d l
  Owned-mono h w = record {
    stored_lt = λ k r e. omega (arith, w.stored_lt k r e);
    own_lt = λ k o i. omega (arith, w.own_lt k o i);
    own_running = w.own_running;
    own_same = w.own_same;
  }

  pub Owned-pop : (k : Key) → Owned f d l → Owned f (pop k d) l
  Owned-pop k w = record {
    stored_lt = λ j r e. ground (arith, get-pop k j d, w.stored_lt j r);
    own_lt = w.own_lt;
    own_running = w.own_running;
    own_same = λ i j o r h e. ground (arith, get-pop k j d, w.own_same i j o r h);
  }

  -- A write of a new object.
  pub Owned-put :
      (k : Key) (r : UpdateRecord)
      → Owned f d l
      → Owned (f + 1) (put k (record { object = f; value = r }) d) l
  Owned-put k r w = record {
    stored_lt =
        λ j x e. ground (arith, get-put k j (record { object = f; value = r }) d, w.stored_lt j x);
    own_lt = λ j o i. omega (arith, w.own_lt j o i);
    own_running = w.own_running;
    own_same = λ i j o x h e q. ground (
      arith,
      get-put k j (record { object = f; value = r }) d,
      w.own_same i j o x h,
      w.own_lt i o h,
    );
  }

  -- The start of an attempt: its own record is the new object.
  pub Owned-start :
      (k : Key) (r : UpdateRecord)
      → update_running r.status ≡ true
      → Owned f d l
      → Owned
          (f + 1)
          (put k (record { object = f; value = r }) d)
          ((k, record { object = f; value = r }) ∷ l)
  Owned-start k r run w = record {
    stored_lt =
        λ j x e. ground (arith, get-put k j (record { object = f; value = r }) d, w.stored_lt j x);
    own_lt = λ j o i. elim i [
      | inl e ↦ omega (arith, ap (λ (x : Ref UpdateRecord). x.object) (run_eq e))
      | inr e ↦ omega (arith, w.own_lt j o e)
    ];
    own_running = λ j o i. elim i [ inl e ↦ rw (run_eq e) run | inr e ↦ w.own_running j o e ];
    own_same = λ i j o x h e q. elim h [
      | inl p ↦
          ground
            (arith, get-put k j (record { object = f; value = r }) d, w.stored_lt j x, run_eq p)
      | inr p ↦ ground (
        arith,
        get-put k j (record { object = f; value = r }) d,
        w.own_same i j o x p,
        w.own_lt i o p,
      )
    ];
  }
