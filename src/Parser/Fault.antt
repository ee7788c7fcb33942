-- ===== src/Parser/Fault.antt =====
-- What the parsers of custom_components/hubinet_ops/packages/parser.py raise.
use hubinet_ops_next.Prelude.{◌≡◌, refl, subst, Bool, true, false, Text, codes, String}
use hubinet_ops_next.Prelude.Results.{Result, ok, err}
use hubinet_ops_next.Models.{ScanFailure}

-- `PackageScanParseError`, and the `PackageScanError` of an unsupported system.
pub data Fault : Type 0 where
  parse_error : ScanFailure → Text → Fault
  scan_error : ScanFailure → Text → Fault

abbrev pub malformed : String → Fault
malformed s = parse_error ScanFailure.malformed_plan (codes s)

abbrev pub Parsed : Type 0 → Type 0
Parsed A = Result Fault A

infixl 5 ◌>>=◌ ◌>>◌
unfoldable pub ◌>>=◌ : {A B : Type 0} → Parsed A → (A → Parsed B) → Parsed B
err f >>= next = err f
ok a >>= next = next a

abbrev pub ◌>>◌ : {A B : Type 0} → Parsed A → Parsed B → Parsed B
m >> next = m >>= λ _. next

-- `if bad: raise fault`
unfoldable pub refuse_if : Bool → Fault → Parsed (Unit {0})
refuse_if false f = ok tt
refuse_if true f = err f

after_at :
    {A B : Type 0} {C : Type 0} (m : Parsed A) (f : A → Parsed B) {b : B}
    → (m >>= f) ≡ ok b
    → ((a : A) → m ≡ ok a → f a ≡ ok b → C)
    → C
unfolding ◌>>=◌
after_at (err e) f h next = cc
after_at (ok a) f h next = next a refl h

-- A chain that succeeds did so at each step.
pub after :
    {A B : Type 0} {C : Type 0} {m : Parsed A} {f : A → Parsed B} {b : B}
    → (m >>= f) ≡ ok b
    → ((a : A) → m ≡ ok a → f a ≡ ok b → C)
    → C
after {m} {f} h next = after_at m f h next

-- A refusal that was passed had no cause.
pub past :
    {B : Type 0} {C : Type 0} (c : Bool) (e : Fault) (f : Unit {0} → Parsed B) {b : B}
    → (refuse_if c e >>= f) ≡ ok b
    → (c ≡ false → f tt ≡ ok b → C)
    → C
unfolding ◌>>=◌ refuse_if
past true e f h next = cc
past false e f h next = next refl h

pub same_ok : {A : Type 0} (P : A → Type 0) {a b : A} → ◌≡◌ {A = Parsed A} (ok a) (ok b) → P a → P b
same_ok {A} P {a} {b} h p = let e : a ≡ b = cc in subst P e p
