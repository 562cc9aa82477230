-- ===== src/Prelude/Lists.antt =====
-- List functions over the native numbers, Boolean search, and predicates by recursion.
use Prim.Native.Nat.{ℕ, zero, suc, ◌+◌}
use mathlib.Core.Path.{◌≡◌, refl, sym, ap, ◌∙◌}
use mathlib.Core.Bool.{Bool, true, false, ◌||◌}
use mathlib.Core.Option.{Option, none, some}
use mathlib.Core.List.{List, [], ◌∷◌, ◌++◌, Memᴰ}
use native.Mathlib.Omega.{arith}
use mathlib.Core.Logic.{inl, inr}
use dial_f.Prelude.Tests.{if◌then◌else◌, Bool-cases}

module _ {ℓ} {A : Type ℓ} where
  abbrev pub length : List A → ℕ
  length [] = 0
  length (x ∷ xs) = suc (length xs)

  pub length-append : (xs ys : List A) → length (xs ++ ys) ≡ length xs + length ys
  length-append [] ys = omega arith
  length-append (x ∷ xs) ys = omega (arith, length-append xs ys)

  abbrev pub get_elem? : List A → ℕ → Option A
  get_elem? [] i = none
  get_elem? (x ∷ xs) zero = some x
  get_elem? (x ∷ xs) (suc i) = get_elem? xs i

  abbrev pub drop : ℕ → List A → List A
  drop zero xs = xs
  drop (suc n) [] = []
  drop (suc n) (x ∷ xs) = drop n xs

  abbrev pub take : ℕ → List A → List A
  take zero xs = []
  take (suc n) [] = []
  take (suc n) (x ∷ xs) = x ∷ take n xs

  -- Keeps the elements that pass the test, in order.
  abbrev pub keep : (A → Bool) → List A → List A
  keep p [] = []
  keep p (x ∷ xs) = if p x then x ∷ keep p xs else keep p xs

  -- Some element passes the test.
  abbrev pub exists : (A → Bool) → List A → Bool
  exists p [] = false
  exists p (x ∷ xs) = p x || exists p xs

  -- The first element that passes the test.
  abbrev pub find : (A → Bool) → List A → Option A
  find p [] = none
  find p (x ∷ xs) = if p x then some x else find p xs

  abbrev pub is_empty : List A → Bool
  is_empty [] = true
  is_empty (x ∷ xs) = false

abbrev pub All {ℓ κ} : {A : Type ℓ} → (A → Type κ) → List A → Type κ
All P [] = Unit
All P (x ∷ xs) = P x × All P xs

pub All-append {ℓ κ} :
    {A : Type ℓ} (P : A → Type κ) (xs ys : List A) → All P xs → All P ys → All P (xs ++ ys)
All-append P [] ys hx hy = hy
All-append P (x ∷ xs) ys hx hy = (hx.0, All-append P xs ys hx.1 hy)

-- A list is filtered to elements that pass.
pub All-keep {ℓ} : {A : Type ℓ} (p : A → Bool) (xs : List A) → All (λ x. p x ≡ true) (keep p xs)
All-keep p [] = tt
All-keep p (x ∷ xs) = ground (arith, All-keep p xs)

or-left : (a b : Bool) → (a || b) ≡ false → a ≡ false
or-left false b h = refl
or-left true b h = cc

or-right : (a b : Bool) → (a || b) ≡ false → b ≡ false
or-right false b h = h
or-right true b h = cc

-- An element that passes a test, where one does.
pub exists-true {ℓ} :
    {A : Type ℓ} (p : A → Bool) (xs : List A)
    → exists p xs ≡ true
    → (x : A) × Memᴰ x xs × (p x ≡ true)
exists-true p [] h = cc
exists-true p (x ∷ xs) h = elim (Bool-cases (p x)) [
  | inl e ↦ (x, Memᴰ.head refl, e)
  | inr e ↦ let (y, m, q) = exists-true p xs (rw e at h) in (y, Memᴰ.tail m, q)
]

pub exists-false {ℓ} :
    {A : Type ℓ} (p : A → Bool) (xs : List A) {x : A}
    → exists p xs ≡ false
    → Memᴰ x xs
    → p x ≡ false
exists-false p [] h m = elim m [ ]
exists-false p (y ∷ ys) h (Memᴰ.head e) = ap p e ∙ (or-left (p y) (exists p ys) h)
exists-false p (y ∷ ys) h (Memᴰ.tail m) = exists-false p ys (or-right (p y) (exists p ys) h) m

pub exists_of_member {ℓ} :
    {A : Type ℓ} (p : A → Bool) (xs : List A) {x : A} → Memᴰ x xs → p x ≡ true → exists p xs ≡ true
exists_of_member p [] m h = elim m [ ]
exists_of_member p (y ∷ ys) (Memᴰ.head e) h = rw (sym (ap p e) ∙ h) refl
exists_of_member p (y ∷ ys) (Memᴰ.tail m) h = elim (Bool-cases (p y)) [
  | inl e ↦ rw e refl
  | inr e ↦ rw e (exists_of_member p ys m h)
]
