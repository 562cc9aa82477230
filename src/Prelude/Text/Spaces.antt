-- ===== src/Prelude/Text/Spaces.antt =====
-- White space: a carriage return at the end of a text is trimmed and is no part of a word.
use dial_f.Prelude.Lists.{is_empty, All, All-append}
use Prim.Native.Nat.{ℕ, zero, suc, ◌≤◌}
use mathlib.Core.Path.{◌≡◌, refl, ap, ◌∙◌}
use mathlib.Core.Bool.{false, ◌&&◌, ◌||◌}
use dial_f.Prelude.Tests.{leb, ◌==◌}
use mathlib.Core.List.{List, [], ◌∷◌, ◌++◌, reverse, reverse-append, reverse-cons, reverse-reverse}
use native.Mathlib.Omega.{arith}
use dial_f.Prelude.Text.{
  Text, space_at, space_behind, skip_space, trim, flush, words, split_whitespace,
}

space_at-cr : (b : ℕ) (r : Text) → space_at (b ∷ (r ++ 13 ∷ [])) ≡ space_at (b ∷ r)
unfolding space_at
space_at-cr b [] = ground arith
space_at-cr b (c ∷ []) = ground arith
space_at-cr b (c ∷ d ∷ r) = refl

space_at-one : space_at (13 ∷ []) ≡ 1
unfolding space_at
space_at-one = refl

words-cr : (n : ℕ) (cur s : Text) → words n cur (s ++ 13 ∷ []) ≡ words n cur s
unfolding words
words-cr zero cur [] = elim cur as (λ c. words zero c (13 ∷ []) ≡ words zero c []) [
  | [] ↦ unfold space_at flush in refl
  | _ ∷ _ ↦ unfold space_at flush in refl
]
words-cr (suc zero) cur [] = refl
words-cr (suc (suc n)) cur [] = refl
words-cr (suc n) cur (b ∷ r) = words-cr n cur r
words-cr zero cur (b ∷ r) =
    go (space_at (b ∷ r)) refl (words-cr zero (b ∷ cur) r) (λ k. words-cr k [] r)
  where
    go :
        (k : ℕ)
        → space_at (b ∷ r) ≡ k
        → words zero (b ∷ cur) (r ++ 13 ∷ []) ≡ words zero (b ∷ cur) r
        → ((j : ℕ) → words j [] (r ++ 13 ∷ []) ≡ words j [] r)
        → words zero cur (b ∷ (r ++ 13 ∷ [])) ≡ words zero cur (b ∷ r)
    go zero e f g = rw (space_at-cr b r, e, words) f
    go (suc k) e f g = rw (space_at-cr b r, e, words) (ap (flush cur) (g k))

pub split_whitespace-cr : (s : Text) → split_whitespace (s ++ 13 ∷ []) ≡ split_whitespace s
unfolding split_whitespace
split_whitespace-cr s = words-cr 0 [] s

-- The `\r` stays behind what is left, if anything is.
then_cr : Text → Text
then_cr [] = []
then_cr (b ∷ r) = b ∷ (r ++ 13 ∷ [])

skip_space-cr :
    (n : ℕ) (s : Text) → skip_space space_at n (s ++ 13 ∷ []) ≡ then_cr (skip_space space_at n s)
unfolding skip_space then_cr
skip_space-cr zero [] = unfold space_at in refl
skip_space-cr (suc n) [] = refl
skip_space-cr (suc n) (b ∷ r) = skip_space-cr n r
skip_space-cr zero (b ∷ r) = go (space_at (b ∷ r)) refl (λ k. skip_space-cr k r)
  where
    go :
        (k : ℕ)
        → space_at (b ∷ r) ≡ k
        → ((j : ℕ) → skip_space space_at j (r ++ 13 ∷ []) ≡ then_cr (skip_space space_at j r))
        → skip_space space_at zero (b ∷ (r ++ 13 ∷ [])) ≡ then_cr (skip_space space_at zero (b ∷ r))
    go zero e f = rw (space_at-cr b r, e, skip_space) refl
    go (suc k) e f = rw (space_at-cr b r, e, skip_space) (f k)

skip_behind-cr : (y : Text) → skip_space space_behind 0 (13 ∷ y) ≡ skip_space space_behind 0 y
unfolding skip_space space_behind
skip_behind-cr [] = refl
skip_behind-cr (a ∷ []) = refl
skip_behind-cr (a ∷ b ∷ r) = refl

trimmed_end-cr :
    (x : Text)
    → skip_space space_behind 0 (reverse (then_cr x)) ≡ skip_space space_behind 0 (reverse x)
unfolding then_cr
trimmed_end-cr [] = refl
trimmed_end-cr (b ∷ r) = rw (reverse-append (b ∷ r) (13 ∷ [])) (skip_behind-cr (reverse (b ∷ r)))

pub trim-cr : (s : Text) → trim (s ++ 13 ∷ []) ≡ trim s
unfolding trim
trim-cr s = rw (skip_space-cr 0 s) (ap reverse (trimmed_end-cr (skip_space space_at 0 s)))

append_not_empty : (ys : Text) (b : ℕ) → is_empty (ys ++ b ∷ []) ≡ false
append_not_empty [] b = refl
append_not_empty (y ∷ ys) b = refl

abbrev pub AllFull : List Text → Type 0
AllFull = All (λ w. is_empty w ≡ false)

flush-AllFull : (cur : Text) (ws : List Text) → AllFull ws → AllFull (flush cur ws)
unfolding flush
flush-AllFull [] ws a = a
flush-AllFull (b ∷ cur) ws a = (rw (reverse-cons b cur) (append_not_empty (reverse cur) b), a)

words-AllFull : (n : ℕ) (cur s : Text) → AllFull (words n cur s)
unfolding words
words-AllFull n cur [] = flush-AllFull cur [] tt
words-AllFull (suc n) cur (b ∷ r) = words-AllFull n cur r
words-AllFull zero cur (b ∷ r) =
    go (space_at (b ∷ r)) refl (words-AllFull zero (b ∷ cur) r) (λ k. words-AllFull k [] r)
  where
    go :
        (k : ℕ)
        → space_at (b ∷ r) ≡ k
        → AllFull (words zero (b ∷ cur) r)
        → ((j : ℕ) → AllFull (words j [] r))
        → AllFull (words zero cur (b ∷ r))
    go zero e f g = rw (e, words) f
    go (suc k) e f g = rw (e, words) (flush-AllFull cur _ (g k))

-- No word is empty.
pub split_whitespace-AllFull : (s : Text) → AllFull (split_whitespace s)
unfolding split_whitespace
split_whitespace-AllFull s = words-AllFull 0 [] s

-- The byte is an ASCII digit or small letter.
abbrev pub IsPlain : ℕ → Type 0
IsPlain c = (48 ≤ c) × (c ≤ 122)

space_at-plain : (c : ℕ) (r : Text) → IsPlain c → space_at (c ∷ r) ≡ 0
unfolding space_at
space_at-plain c [] h = ground arith
space_at-plain c (b ∷ []) h = ground arith
space_at-plain c (b ∷ d ∷ r) h = ground arith

not_space : (c : ℕ) → IsPlain c → (leb 9 c && leb c 13 || c == 32) ≡ false
not_space c h = ground arith

space_at-two : (b c : ℕ) → IsPlain c → space_at (b ∷ c ∷ []) == 2 ≡ false
unfolding space_at
space_at-two b c h = ground arith

space_at-three : (d b c : ℕ) → IsPlain c → space_at (d ∷ b ∷ c ∷ []) == 3 ≡ false
unfolding space_at
space_at-three d b c h = ground arith

space_behind-plain : (c : ℕ) (r : Text) → IsPlain c → space_behind (c ∷ r) ≡ 0
unfolding space_behind
space_behind-plain c [] h = rw (not_space c h) refl
space_behind-plain c (b ∷ []) h = rw (not_space c h, space_at-two b c h) refl
space_behind-plain c (b ∷ d ∷ r) h =
    rw (not_space c h, space_at-two b c h, space_at-three d b c h) refl

skip_space-plain :
    (measure : Text → ℕ) (s : Text)
    → ((c : ℕ) (r : Text) → IsPlain c → measure (c ∷ r) ≡ 0)
    → All IsPlain s
    → skip_space measure 0 s ≡ s
unfolding skip_space
skip_space-plain measure [] m a = refl
skip_space-plain measure (c ∷ r) m a = rw (skip_space, m c r a.0) refl

All-reverse : (s : Text) → All IsPlain s → All IsPlain (reverse s)
All-reverse [] a = tt
All-reverse (c ∷ s) a =
    rw (reverse-cons c s) (All-append IsPlain (reverse s) (c ∷ []) (All-reverse s a.1) (a.0, tt))

-- A text without white space stays as it is.
pub trim-plain : (s : Text) → All IsPlain s → trim s ≡ s
unfolding trim
trim-plain s a = rw (skip_space-plain space_at s space_at-plain a) (
    rw (skip_space-plain space_behind (reverse s) space_behind-plain (All-reverse s a))
      (reverse-reverse s))

-- The text begins with a plain character.
abbrev pub StartsPlain : Text → Type 0
StartsPlain [] = ⊥
StartsPlain (c ∷ s) = IsPlain c

skip_space-start :
    (measure : Text → ℕ) (s : Text)
    → ((c : ℕ) (r : Text) → IsPlain c → measure (c ∷ r) ≡ 0)
    → StartsPlain s
    → skip_space measure 0 s ≡ s
unfolding skip_space
skip_space-start measure [] m h = absurd h
skip_space-start measure (c ∷ r) m h = rw (skip_space, m c r h) refl

StartsPlain-append : (s t : Text) → StartsPlain s → StartsPlain (s ++ t)
StartsPlain-append [] t h = absurd h
StartsPlain-append (c ∷ s) t h = h

space_behind-newline : (s : Text) → space_behind (10 ∷ s) ≡ 1
unfolding space_behind
space_behind-newline [] = refl
space_behind-newline (b ∷ []) = refl
space_behind-newline (b ∷ c ∷ r) = refl

-- A line that begins and ends with plain characters loses its newline only.
pub trim-newline : (s : Text) → StartsPlain s → StartsPlain (reverse s) → trim (s ++ (10 ∷ [])) ≡ s
unfolding trim
trim-newline s h k =
    ap (λ t. reverse (skip_space space_behind 0 (reverse t)))
      (skip_space-start space_at (s ++ (10 ∷ [])) space_at-plain (StartsPlain-append s (10 ∷ []) h))
    ∙ (ap (λ t. reverse (skip_space space_behind 0 t)) (reverse-append s (10 ∷ []))
        ∙ (rw (skip_space, space_behind-newline (reverse s))
              (ap reverse (skip_space-start space_behind (reverse s) space_behind-plain k))
            ∙ reverse-reverse s))
