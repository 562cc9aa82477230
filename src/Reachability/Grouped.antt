-- ===== src/Reachability/Grouped.antt =====
-- reachability.rs: findings grouped by their fix.
use mathlib.Core.List.{append_assoc}
use dial_f.Prelude.{
  ◌≡◌, refl, sym, ap, ◌∙◌, List, [], ◌∷◌, ◌++◌, map, Bool-cases, inl, inr, if◌then◌else◌,
}
use dial_f.Prelude.Text.{Text, text_eq, text_eq_iff}
use dial_f.Reachability.{Finding, Step, place_finding, group_from, group_by_fix, note}
use dial_f.Reachability.Noted.{among, IsDistinct, text_eq-swap, note-IsDistinct}

abbrev pub solutions : List Step → List Text
solutions steps = map (λ (s : Step). s.solution) steps

-- The problems under a fix.
abbrev pub problems_of : Text → List Step → List Text
problems_of fix [] = []
problems_of fix (s ∷ ss) =
    let rest = problems_of fix ss in if text_eq s.solution fix then s.problems else rest

-- The problems of the findings that have a fix.
abbrev pub found : Text → List Finding → List Text
found fix [] = []
found fix (f ∷ fs) = let rest = found fix fs in if text_eq f.fix fix then f.problem ∷ rest else rest

place_finding-solutions :
    (f : Finding) (steps : List Step)
    → solutions (place_finding f steps) ≡ note f.fix (solutions steps)
unfolding place_finding note
place_finding-solutions f [] = refl
place_finding-solutions f (s ∷ ss) = elim (Bool-cases (text_eq s.solution f.fix)) [
  | inl e ↦ rw e refl
  | inr e ↦ rw e (
      ap (λ t. s.solution ∷ t) (place_finding-solutions f ss)
      ∙ elim (Bool-cases (among f.fix (solutions ss))) [ inl g ↦ rw g refl | inr g ↦ rw g refl ])
]

append-nil {ℓ} : {A : Type ℓ} (xs : List A) → xs ≡ xs ++ []
append-nil [] = refl
append-nil (x ∷ xs) = ap (λ t. x ∷ t) (append-nil xs)

one : Text → Finding → List Text
one fix f = if text_eq f.fix fix then f.problem ∷ [] else []

problems_of-place_finding :
    (fix : Text) (f : Finding) (steps : List Step)
    → problems_of fix (place_finding f steps) ≡ problems_of fix steps ++ one fix f
unfolding place_finding one
problems_of-place_finding fix f [] = refl
problems_of-place_finding fix f (s ∷ ss) =
    let ih = problems_of-place_finding fix f ss in
    elim (Bool-cases (text_eq s.solution f.fix)) [
      | inl e ↦
          let same = ap (λ t. text_eq t fix) ((text_eq_iff s.solution f.fix).0 e) in
          elim (Bool-cases (text_eq s.solution fix)) [
            | inl g ↦ rw (e, g, sym same ∙ g) refl
            | inr g ↦ rw (e, g, sym same ∙ g) (append-nil (problems_of fix ss))
          ]
      | inr e ↦ elim (Bool-cases (text_eq s.solution fix)) [
        | inl g ↦
            let same = ap (λ t. text_eq t f.fix) (sym ((text_eq_iff s.solution fix).0 g)) in
            rw (e, g, text_eq-swap fix f.fix (same ∙ e)) (append-nil s.problems)
        | inr g ↦ rw (e, g) ih
      ]
    ]

one-found :
    (fix : Text) (f : Finding) (fs : List Finding) → one fix f ++ found fix fs ≡ found fix (f ∷ fs)
unfolding one
one-found fix f fs = elim (Bool-cases (text_eq f.fix fix)) [ inl e ↦ rw e refl | inr e ↦ rw e refl ]

problems_of-group_from :
    (fix : Text) (steps : List Step) (fs : List Finding)
    → problems_of fix (group_from steps fs) ≡ problems_of fix steps ++ found fix fs
unfolding group_from
problems_of-group_from fix steps [] = append-nil (problems_of fix steps)
problems_of-group_from fix steps (f ∷ fs) =
    problems_of-group_from fix (place_finding f steps) fs
    ∙ ap (λ t. t ++ found fix fs) (problems_of-place_finding fix f steps)
    ∙ append_assoc (problems_of fix steps) (one fix f) (found fix fs)
    ∙ ap (λ t. problems_of fix steps ++ t) (one-found fix f fs)

group_from-IsDistinct :
    (steps : List Step) (fs : List Finding)
    → IsDistinct (solutions steps)
    → IsDistinct (solutions (group_from steps fs))
unfolding group_from
group_from-IsDistinct steps [] d = d
group_from-IsDistinct steps (f ∷ fs) d =
    group_from-IsDistinct (place_finding f steps) fs
      (rw (place_finding-solutions f steps) (note-IsDistinct f.fix (solutions steps) d))

-- The advice of a report names every fix once, and under a fix stand exactly the problems that were
-- found with it, in the order in which they were found.
pub group_by_fix_lem :
    (findings : List Finding)
    → IsDistinct (solutions (group_by_fix findings))
      × ((fix : Text) → problems_of fix (group_by_fix findings) ≡ found fix findings)
unfolding group_by_fix
group_by_fix_lem findings =
    (group_from-IsDistinct [] findings tt, λ fix. problems_of-group_from fix [] findings)
