-- ===== src/Prelude/Outcome.antt =====
-- Results of fallible code, and their `do` blocks.
use mathlib.Core.Path.{◌≡◌, refl}
use mathlib.Core.Bool.{Bool, true, false}
use mathlib.Core.Option.{Option, none, some}

pub data Result {ℓ κ} (E : Type κ) (A : Type ℓ) : Type (ℓ ⊔ κ) where
  ok : A → Result E A
  err : E → Result E A

-- The `?` operator.
infixl 5 ◌>>=◌ ◌>>◌
abbrev pub ◌>>=◌ {ℓ κ μ} :
    {E : Type κ} {A : Type ℓ} {B : Type μ} → Result E A → (A → Result E B) → Result E B
err failure >>= next = err failure
ok value >>= next = next value

abbrev pub ◌>>◌ {ℓ κ} : {E : Type κ} {B : Type ℓ} → Result E (Unit {0}) → Result E B → Result E B
check >> next = check >>= λ _. next

-- Fails with `e` where the condition holds: `if b { bail!(e) }`.
abbrev pub bail_if {κ} : {E : Type κ} → Bool → E → Result E (Unit {0})
bail_if true e = err e
bail_if false e = ok tt

abbrev pub ok_or {ℓ κ} : {E : Type κ} {A : Type ℓ} → Option A → E → Result E A
ok_or none e = err e
ok_or (some a) e = ok a

pub ok-injective {ℓ κ} :
    {E : Type κ} {A : Type ℓ} (a b : A) → ◌≡◌ {A = Result E A} (ok a) (ok b) → a ≡ b
ok-injective a b h = cc

-- A result that went on came from one that went on.
pub passed {ℓ κ μ} :
    {E : Type κ} {A : Type ℓ} {B : Type μ} (r : Result E A) (f : A → Result E B) (b : B)
    → (r >>= f) ≡ ok b
    → (a : A) × (r ≡ ok a) × (f a ≡ ok b)
passed (ok a) f b h = (a, refl, h)
passed (err e) f b h = cc

pub passed-test {ℓ κ} :
    {E : Type κ} {B : Type ℓ} (t : Bool) (e : E) (r : Result E B) (b : B)
    → (bail_if t e >>= λ _. r) ≡ ok b
    → (t ≡ false) × (r ≡ ok b)
passed-test true e r b h = cc
passed-test false e r b h = (refl, h)
