-- ===== src/Reachability/Noted.antt =====
-- reachability.rs: noting a text once.
use dial_f.Prelude.{
  ◌≡◌, refl, sym, ap, ◌∙◌, Bool, true, false, ◌||◌, List, [], ◌∷◌, ◌++◌, exists, Bool-cases, inl,
  inr,
}
use dial_f.Prelude.Text.{Text, text_eq, text_eq_iff}
use dial_f.Reachability.{note}

-- Whether a text is in a list.
abbrev pub among : Text → List Text → Bool
among t ts = exists (λ s. text_eq s t) ts

-- No text stands in the list twice.
abbrev pub IsDistinct : List Text → Type 0
IsDistinct [] = Unit {0}
IsDistinct (t ∷ ts) = (among t ts ≡ false) × IsDistinct ts

true-false : ¬ (true ≡ false)
true-false h = cc

pub text_eq-swap : (s t : Text) → text_eq s t ≡ false → text_eq t s ≡ false
text_eq-swap s t h = elim (Bool-cases (text_eq t s)) [
  | inl e ↦ absurd (true-false (sym ((text_eq_iff s t).1 (sym ((text_eq_iff t s).0 e))) ∙ h))
  | inr e ↦ e
]

pub among-append :
    (t i : Text) (ts : List Text) → among t (ts ++ (i ∷ [])) ≡ (among t ts || text_eq i t)
among-append t i [] = elim (Bool-cases (text_eq i t)) [ inl e ↦ rw e refl | inr e ↦ rw e refl ]
among-append t i (s ∷ ts) = elim (Bool-cases (text_eq s t)) [
  | inl e ↦ rw e refl
  | inr e ↦ rw e (among-append t i ts)
]

append-IsDistinct :
    (i : Text) (ts : List Text) → among i ts ≡ false → IsDistinct ts → IsDistinct (ts ++ (i ∷ []))
append-IsDistinct i [] h d = (refl, tt)
append-IsDistinct i (t ∷ ts) h d = elim (Bool-cases (text_eq t i)) [
  | inl e ↦ absurd (true-false (sym (ap (λ b. b || among i ts) e) ∙ h))
  | inr e ↦ (
    among-append t i ts ∙ rw (d.0, text_eq-swap t i e) refl,
    append-IsDistinct i ts (sym (ap (λ b. b || among i ts) e) ∙ h) d.1,
  )
]

pub note-IsDistinct : (i : Text) (ts : List Text) → IsDistinct ts → IsDistinct (note i ts)
unfolding note
note-IsDistinct i ts d = elim (Bool-cases (among i ts)) [
  | inl e ↦ rw e d
  | inr e ↦ rw e (append-IsDistinct i ts e d)
]

among-same :
    (t i : Text) (ts : List Text)
    → text_eq i t ≡ true
    → among i ts ≡ true
    → among t ts ≡ (among t ts || true)
among-same t i ts f e = rw (ap (λ x. among x ts) (sym ((text_eq_iff i t).0 f)) ∙ e) refl

or-false : (b : Bool) → b ≡ (b || false)
or-false true = refl
or-false false = refl

-- Noting a text adds it, and nothing else.
pub among-note : (t i : Text) (ts : List Text) → among t (note i ts) ≡ (among t ts || text_eq i t)
unfolding note
among-note t i ts = elim (Bool-cases (among i ts)) [
  | inl e ↦ rw e (elim (Bool-cases (text_eq i t)) [
    | inl f ↦ rw f (among-same t i ts f e)
    | inr f ↦ rw f (or-false (among t ts))
  ])
  | inr e ↦ rw e (among-append t i ts)
]
