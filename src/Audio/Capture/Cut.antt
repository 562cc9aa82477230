-- ===== src/Audio/Capture/Cut.antt =====
-- audio/record.rs: a chunk is cut into whole frames and a rest.
use mathlib.Core.List.{append-nil}
use dial_f.Prelude.{
  ℕ, zero, suc, ◌-◌, ◌*◌, ◌/◌, ◌%◌, ◌≤◌, ◌<◌, List, [], ◌∷◌, ◌++◌, length, take, drop, ◌==◌,
  Bool-cases, inl, inr, ==_iff, ◌≡◌, refl, ap, ◌∙◌, arith,
}
use dial_f.Audio.Capture.{whole_frames}

take-drop : (n : ℕ) (xs : List ℕ) → take n xs ++ drop n xs ≡ xs
take-drop zero xs = refl
take-drop (suc n) [] = refl
take-drop (suc n) (x ∷ xs) = ap (λ ys. x ∷ ys) (take-drop n xs)

length-take : (n : ℕ) (xs : List ℕ) → n ≤ length xs → length (take n xs) ≡ n
length-take zero xs h = refl
length-take (suc n) [] h = omega arith
length-take (suc n) (x ∷ xs) h = ap suc (length-take n xs (omega arith))

length-drop : (n : ℕ) (xs : List ℕ) → length (drop n xs) ≡ length xs - n
length-drop zero xs = omega arith
length-drop (suc n) [] = omega arith
length-drop (suc n) (x ∷ xs) = length-drop n xs ∙ omega arith

-- Whole frames, and less than a frame behind them.
abbrev pub IsCut : ℕ → List ℕ → List ℕ × List ℕ → Type 0
IsCut channels all (whole, rest) =
    (whole ++ rest ≡ all)
    × (length rest < channels)
    × (length whole / channels * channels ≡ length whole)

div_cancel : (n c : ℕ) → 1 ≤ c → n / c * c / c * c ≡ n / c * c
div_cancel n c h = grind arith

take-drop-IsCut :
    (channels : ℕ) (all : List ℕ)
    → 1 ≤ channels
    → let whole : ℕ = length all / channels * channels in
      IsCut channels all (take whole all, drop whole all)
take-drop-IsCut channels all h =
    let whole : ℕ = length all / channels * channels in
    let le : whole ≤ length all = grind arith in
    let lt : length all - whole < channels = grind arith in
    let n = length-take whole all le in
    (take-drop whole all, rw (length-drop whole all) lt, rw n (div_cancel (length all) channels h))

pub whole_frames-IsCut :
    (channels : ℕ) (carry samples : List ℕ)
    → 1 ≤ channels
    → IsCut channels (carry ++ samples) (whole_frames channels carry samples)
unfolding whole_frames
whole_frames-IsCut channels [] samples h = elim (Bool-cases (length samples % channels == 0)) [
  | inl e ↦
      let even = (==_iff (length samples % channels) 0).0 e in
      rw e (append-nil samples, h, grind arith)
  | inr e ↦ rw e (take-drop-IsCut channels samples h)
]
whole_frames-IsCut channels (c ∷ carry) samples h =
    take-drop-IsCut channels ((c ∷ carry) ++ samples) h
