-- ===== src/Prelude/Assoc.antt =====
-- Maps with texts for keys, as association lists in which a key stands at most once.
use mathlib.Core.Path.{◌≡◌, refl, sym, ◌∙◌}
use mathlib.Core.Logic.{◌≢◌, inl, inr}
use mathlib.Core.Option.{Option, none, some}
use mathlib.Core.List.{List, [], ◌∷◌}
use dial_f.Prelude.Tests.{if◌then◌else◌, Bool-cases}
use dial_f.Prelude.Text.{Text, text_eq, text_eq_iff, text_eq_refl}

unfoldable pub lookup {ℓ} : {V : Type ℓ} → Text → List (Text × V) → Option V
lookup k [] = none
lookup k ((k', v) ∷ m) = let rest = lookup k m in if text_eq k k' then some v else rest

unfoldable pub erase {ℓ} : {V : Type ℓ} → Text → List (Text × V) → List (Text × V)
erase k [] = []
erase k ((k', v) ∷ m) = let rest = erase k m in if text_eq k k' then rest else (k', v) ∷ rest

-- A key that is there is replaced.
unfoldable pub insert {ℓ} : {V : Type ℓ} → Text → V → List (Text × V) → List (Text × V)
unfolding erase
insert k v m = (k, v) ∷ erase k m

pub lookup-erase {ℓ} : {V : Type ℓ} (k : Text) (m : List (Text × V)) → lookup k (erase k m) ≡ none
unfolding lookup erase
lookup-erase k [] = refl
lookup-erase k ((k', v) ∷ m) = elim (Bool-cases (text_eq k k')) [
  | inl c ↦ rw c (lookup-erase k m)
  | inr c ↦ rw (c, c) (lookup-erase k m)
]

pub lookup-erase_other {ℓ} :
    {V : Type ℓ} (j k : Text) (m : List (Text × V)) → j ≢ k → lookup j (erase k m) ≡ lookup j m
unfolding lookup erase
lookup-erase_other j k [] h = refl
lookup-erase_other j k ((k', v) ∷ m) h =
    let ih = lookup-erase_other j k m h in
    elim (Bool-cases (text_eq k k')) [
      | inl c ↦ elim (Bool-cases (text_eq j k')) [
        | inl d ↦ absurd (h ((text_eq_iff j k').0 d ∙ sym ((text_eq_iff k k').0 c)))
        | inr d ↦ rw (c, d) ih
      ]
      | inr c ↦ elim (Bool-cases (text_eq j k')) [ inl d ↦ rw (c, d) refl | inr d ↦ rw (c, d) ih ]
    ]

pub lookup-insert {ℓ} :
    {V : Type ℓ} (k : Text) (v : V) (m : List (Text × V)) → lookup k (insert k v m) ≡ some v
unfolding lookup insert
lookup-insert k v m = rw (text_eq_refl k) refl

pub lookup-insert_other {ℓ} :
    {V : Type ℓ} (j k : Text) (v : V) (m : List (Text × V))
    → j ≢ k
    → lookup j (insert k v m) ≡ lookup j m
unfolding lookup insert
lookup-insert_other j k v m h = elim (Bool-cases (text_eq j k)) [
  | inl d ↦ absurd (h ((text_eq_iff j k).0 d))
  | inr d ↦ rw d (lookup-erase_other j k m h)
]
