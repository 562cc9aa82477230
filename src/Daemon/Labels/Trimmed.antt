-- ===== src/Daemon/Labels/Trimmed.antt =====
-- daemon.rs: what trimming leaves of a label.
use mathlib.Core.List.{reverse-append, reverse-cons, reverse-reverse}
use dial_f.Prelude.{
  ℕ, zero, suc, ◌≤◌, ◌<◌, ◌≡◌, refl, sym, ap, ◌∙◌, Bool, true, false, [], ◌∷◌, ◌++◌, reverse,
  if◌then◌else◌, ◌==◌, take, length, All, All-append, length-append, arith, Bool-cases, inl, inr,
}
use dial_f.Prelude.Text.{Text}
use dial_f.Daemon.Labels.{max_label_len, is_kept, is_edge, squeeze, trim_start, trim_matches}

abbrev pub IsKept : ℕ → Type 0
IsKept c = is_kept c ≡ true

-- The text is empty or begins with no dash and no dot.
abbrev pub Starts : Text → Type 0
Starts [] = Unit {0}
Starts (c ∷ s) = is_edge c ≡ false

-- Safe characters, at least one and at most 40, with no dash or dot at either end.
abbrev pub IsLabel : Text → Type 0
IsLabel l =
    All IsKept l × (0 < length l) × (length l ≤ max_label_len) × Starts l × Starts (reverse l)

All-reverse : (s : Text) → All IsKept s → All IsKept (reverse s)
All-reverse [] a = tt
All-reverse (c ∷ s) a =
    rw (reverse-cons c s) (All-append IsKept (reverse s) (c ∷ []) (All-reverse s a.1) (a.0, tt))

pub All-take : (n : ℕ) (s : Text) → All IsKept s → All IsKept (take n s)
All-take zero s a = tt
All-take (suc n) [] a = tt
All-take (suc n) (c ∷ s) a = (a.0, All-take n s a.1)

pub squeeze-All : (dash : Bool) (s : Text) → All IsKept (squeeze dash s)
unfolding squeeze
squeeze-All dash [] = tt
squeeze-All dash (c ∷ s) = elim (Bool-cases (is_kept c)) [
  | inl e ↦ rw e (e, squeeze-All (c == 45) s)
  | inr e ↦ rw e (dashes dash (squeeze true s) (squeeze-All true s))
]
  where
    dashes : (b : Bool) (r : Text) → All IsKept r → All IsKept (if b then r else 45 ∷ r)
    dashes true r a = a
    dashes false r a = (unfold is_kept in refl, a)

trim_start-All : (s : Text) → All IsKept s → All IsKept (trim_start s)
unfolding trim_start
trim_start-All [] a = tt
trim_start-All (c ∷ s) a = elim (Bool-cases (is_edge c)) [
  | inl e ↦ rw e (trim_start-All s a.1)
  | inr e ↦ rw e a
]

trim_start-Starts : (s : Text) → Starts (trim_start s)
unfolding trim_start
trim_start-Starts [] = tt
trim_start-Starts (c ∷ s) = elim (Bool-cases (is_edge c)) [
  | inl e ↦ rw e (trim_start-Starts s)
  | inr e ↦ rw e e
]

-- What is trimmed away is a prefix.
trim_start-suffix : (s : Text) → (cut : Text) × (s ≡ cut ++ trim_start s)
unfolding trim_start
trim_start-suffix [] = ([], refl)
trim_start-suffix (c ∷ s) =
    let t = trim_start-suffix s in
    elim (Bool-cases (is_edge c)) [
      | inl e ↦ (c ∷ t.0, rw e (ap (λ l. c ∷ l) t.1))
      | inr e ↦ ([], rw e refl)
    ]

Starts-append : (a b : Text) → Starts (a ++ b) → Starts a
Starts-append [] b h = tt
Starts-append (c ∷ a) b h = h

pub trim_matches-All : (s : Text) → All IsKept s → All IsKept (trim_matches s)
unfolding trim_matches
trim_matches-All s a =
    All-reverse (trim_start (reverse (trim_start s)))
      (trim_start-All (reverse (trim_start s)) (All-reverse (trim_start s) (trim_start-All s a)))

pub trim_matches-Starts : (s : Text) → Starts (trim_matches s) × Starts (reverse (trim_matches s))
unfolding trim_matches
trim_matches-Starts s =
    let t = trim_start s in
    let r = trim_start (reverse t) in
    let cut = trim_start-suffix (reverse t) in
    let e : t ≡ reverse r ++ reverse cut.0 =
      sym (reverse-reverse t) ∙ (ap reverse cut.1 ∙ reverse-append cut.0 r) in
    (
      Starts-append (reverse r) (reverse cut.0) (rw (sym e) (trim_start-Starts s)),
      rw (reverse-reverse r) (trim_start-Starts (reverse t)),
    )

length-reverse : (s : Text) → length (reverse s) ≡ length s
length-reverse [] = refl
length-reverse (c ∷ s) =
    ap length (reverse-cons c s)
    ∙ omega (arith, length-append (reverse s) (c ∷ []), length-reverse s)

length-trim_start : (s : Text) → length (trim_start s) ≤ length s
unfolding trim_start
length-trim_start [] = omega arith
length-trim_start (c ∷ s) = ground (arith, length-trim_start s)

pub length-trim_matches : (s : Text) → length (trim_matches s) ≤ length s
unfolding trim_matches
length-trim_matches s =
    let t = trim_start s in
    omega (
      arith,
      length-reverse (trim_start (reverse t)),
      length-trim_start (reverse t),
      length-reverse t,
      length-trim_start s,
    )
