-- ===== src/Prelude/Text.antt =====
-- Rust's `str` as the list of its UTF-8 bytes, with the operations that the program uses on it.
pub mod Spaces
pub mod Utf8
pub mod Decimal
use Prim.Native.Nat.{ℕ, zero, suc, ◌+◌, ◌-◌, ◌*◌, ◌/◌, ◌%◌, ◌<◌}
use Prim.Native.Char.{code}
use Prim.Native.String.{String}
use mathlib.Core.Path.{◌≡◌, refl}
use mathlib.Core.Logic.{◌↔◌, inl, inr}
use mathlib.Core.Bool.{Bool, true, false, ◌&&◌, ◌||◌}
use mathlib.Core.Option.{Option, none, some}
use mathlib.Core.List.{List, [], ◌∷◌, ◌++◌, reverse}
use native.Mathlib.Omega.{arith}
use dial_f.Prelude.Tests.{ltb, leb, ◌==◌, if◌then◌else◌, Option-cases}
use dial_f.Prelude.Lists.{is_empty}

abbrev pub Text : Type 0
Text = List ℕ

-- The UTF-8 bytes of a code point.
utf8 : ℕ → List ℕ
utf8 c =
    if ltb c 0x80
    then c ∷ []
    else if ltb c 0x800
    then (0xc0 + c / 64) ∷ (0x80 + c % 64) ∷ []
    else if ltb c 0x10000
    then (0xe0 + c / 4096) ∷ (0x80 + c / 64 % 64) ∷ (0x80 + c % 64) ∷ []
    else (0xf0 + c / 262144) ∷ (0x80 + c / 4096 % 64) ∷ (0x80 + c / 64 % 64) ∷ (0x80 + c % 64) ∷ []

-- A literal of the source. Shut, so that proofs treat it as one value.
unfoldable pub bytes : String → Text
unfolding utf8
bytes String.[] = []
bytes (String.◌∷◌ c s) = utf8 (code c) ++ bytes s

unfoldable pub text_eq : Text → Text → Bool
text_eq [] [] = true
text_eq [] (b ∷ t) = false
text_eq (a ∷ s) [] = false
text_eq (a ∷ s) (b ∷ t) = (a == b) && text_eq s t

pub text_eq_refl : (s : Text) → text_eq s s ≡ true
unfolding text_eq
text_eq_refl [] = refl
text_eq_refl (a ∷ s) = ground (arith, text_eq_refl s)

pub text_eq_iff : (s t : Text) → (text_eq s t ≡ true) ↔ (s ≡ t)
unfolding text_eq
text_eq_iff [] [] = (λ _. refl, λ _. refl)
text_eq_iff [] (b ∷ t) = (λ h. cc, λ h. cc)
text_eq_iff (a ∷ s) [] = (λ h. cc, λ h. cc)
text_eq_iff (a ∷ s) (b ∷ t) = ground (arith, text_eq_iff s t)

-- str::strip_prefix, with the prefix first.
unfoldable pub strip_prefix : Text → Text → Option Text
strip_prefix [] s = some s
strip_prefix (p ∷ ps) [] = none
strip_prefix (p ∷ ps) (c ∷ s) = if p == c then strip_prefix ps s else none

abbrev pub is_some {ℓ} : {A : Type ℓ} → Option A → Bool
is_some none = false
is_some (some a) = true

unfoldable pub starts_with : Text → Text → Bool
unfolding strip_prefix
starts_with p s = is_some (strip_prefix p s)

-- What is left after a prefix is what the text is continued by.
pub strip_prefix_iff : (p s r : Text) → (strip_prefix p s ≡ some r) ↔ (s ≡ p ++ r)
unfolding strip_prefix
strip_prefix_iff [] s r = (λ h. cc, λ h. cc)
strip_prefix_iff (p ∷ ps) [] r = (λ h. cc, λ h. cc)
strip_prefix_iff (p ∷ ps) (c ∷ s) r = ground (arith, strip_prefix_iff ps s r)

-- The length in bytes of the Unicode white space character at the start; 0 if there is none.
unfoldable pub space_at : Text → ℕ
space_at (a ∷ b ∷ c ∷ r) =
    if leb 9 a && leb a 13 || a == 32
    then 1
    else if a == 0xc2 && (b == 0x85 || b == 0xa0)
    then 2
    else if a == 0xe1 && (b == 0x9a && c == 0x80)
        || a == 0xe2
          && (b == 0x80 && (leb 0x80 c && leb c 0x8a || c == 0xa8 || c == 0xa9 || c == 0xaf))
        || a == 0xe2 && (b == 0x81 && c == 0x9f)
        || a == 0xe3 && (b == 0x80 && c == 0x80)
    then 3
    else 0
space_at (a ∷ b ∷ []) =
    if leb 9 a && leb a 13 || a == 32
    then 1
    else if a == 0xc2 && (b == 0x85 || b == 0xa0)
    then 2
    else 0
space_at (a ∷ []) = if leb 9 a && leb a 13 || a == 32 then 1 else 0
space_at [] = 0

-- The same for the character that a reversed text begins with.
unfoldable pub space_behind : Text → ℕ
space_behind (a ∷ b ∷ c ∷ r) =
    if leb 9 a && leb a 13 || a == 32
    then 1
    else if space_at (b ∷ a ∷ []) == 2
    then 2
    else if space_at (c ∷ b ∷ a ∷ []) == 3
    then 3
    else 0
space_behind (a ∷ b ∷ []) =
    if leb 9 a && leb a 13 || a == 32 then 1 else if space_at (b ∷ a ∷ []) == 2 then 2 else 0
space_behind (a ∷ []) = if leb 9 a && leb a 13 || a == 32 then 1 else 0
space_behind [] = 0

-- Drops `n` bytes, and then white space as `measure` finds it.
skip_space : (Text → ℕ) → ℕ → Text → Text
skip_space measure n [] = []
skip_space measure (suc n) (b ∷ r) = skip_space measure n r
skip_space measure zero (b ∷ r) = elim (measure (b ∷ r)) [
  | zero ↦ b ∷ r
  | suc k ↦ skip_space measure k r
]

-- str::trim
unfoldable pub trim : Text → Text
unfolding skip_space space_at space_behind
trim s = reverse (skip_space space_behind 0 (reverse (skip_space space_at 0 s)))

flush : Text → List Text → List Text
flush [] words = words
flush (b ∷ cur) words = reverse (b ∷ cur) ∷ words

-- `n` bytes of a white space character are left; `cur` holds the current word, reversed.
words : ℕ → Text → Text → List Text
unfolding flush
words n cur [] = flush cur []
words (suc n) cur (b ∷ r) = words n cur r
words zero cur (b ∷ r) = elim (space_at (b ∷ r)) [
  | zero ↦ words zero (b ∷ cur) r
  | suc k ↦ flush cur (words k [] r)
]

-- str::split_whitespace
unfoldable pub split_whitespace : Text → List Text
unfolding words space_at
split_whitespace s = words 0 [] s

-- str::to_ascii_lowercase
unfoldable pub to_ascii_lowercase : Text → Text
to_ascii_lowercase [] = []
to_ascii_lowercase (c ∷ s) = (if leb 65 c && leb c 90 then c + 32 else c) ∷ to_ascii_lowercase s

-- str::contains, for a text
unfoldable pub contains : Text → Text → Bool
unfolding starts_with
contains p [] = is_empty p
contains p (c ∷ s) = starts_with p (c ∷ s) || contains p s

-- The value of an ASCII digit in a base up to 16.
unfoldable pub digit_value : ℕ → ℕ → Option ℕ
digit_value base c =
    let v =
      if leb 48 c && leb c 57
      then c - 48
      else if leb 97 c && leb c 102
      then c - 87
      else if leb 65 c && leb c 70
      then c - 55
      else base in
    if ltb v base then some v else none

-- Digits to a number below `bound`; a larger one is an error, as in Rust's integer parsers.
unfoldable pub parse_digits : ℕ → ℕ → ℕ → Text → Option ℕ
unfolding digit_value
parse_digits base bound acc [] = some acc
parse_digits base bound acc (c ∷ s) = elim (digit_value base c) [
  | none ↦ none
  | some v ↦ elim (ltb (acc * base + v) bound) [
    | true ↦ parse_digits base bound (acc * base + v) s
    | false ↦ none
  ]
]

-- from_str_radix of an unsigned type with `bound` values: one `+` may stand in front.
unfoldable pub parse_unsigned : ℕ → ℕ → Text → Option ℕ
unfolding parse_digits
parse_unsigned base bound [] = none
parse_unsigned base bound (c ∷ []) = if c == 43 then none else parse_digits base bound 0 (c ∷ [])
parse_unsigned base bound (c ∷ d ∷ s) =
    if c == 43 then parse_digits base bound 0 (d ∷ s) else parse_digits base bound 0 (c ∷ d ∷ s)

pub parse_digits-lt :
    (base bound acc : ℕ) (s : Text) {n : ℕ}
    → acc < bound
    → parse_digits base bound acc s ≡ some n
    → n < bound
unfolding parse_digits
parse_digits-lt base bound acc [] h e = ground arith
parse_digits-lt base bound acc (c ∷ s) {n} h e = elim (Option-cases (digit_value base c)) [
  | inl q ↦ ground arith
  | inr (v, q) ↦ ground (arith, parse_digits-lt base bound (acc * base + v) s {n = n})
]

-- A parsed number fits its type.
pub parse_unsigned-lt :
    (base bound : ℕ) (s : Text) {n : ℕ}
    → 0 < bound
    → parse_unsigned base bound s ≡ some n
    → n < bound
unfolding parse_unsigned
parse_unsigned-lt base bound [] h e = cc
parse_unsigned-lt base bound (c ∷ []) {n} h e =
    ground (arith, parse_digits-lt base bound 0 (c ∷ []) {n = n} h)
parse_unsigned-lt base bound (c ∷ d ∷ s) {n} h e = ground (
  arith,
  parse_digits-lt base bound 0 (d ∷ s) {n = n} h,
  parse_digits-lt base bound 0 (c ∷ d ∷ s) {n = n} h,
)

-- The decimal digits of a number, before `acc`; `fuel` is more than the number of digits.
decimal_digits : ℕ → ℕ → Text → Text
decimal_digits zero n acc = acc
decimal_digits (suc fuel) n acc =
    let rest = decimal_digits fuel (n / 10) ((48 + n % 10) ∷ acc) in
    if ltb n 10 then (48 + n % 10) ∷ acc else rest

-- Display of an unsigned number.
unfoldable pub decimal : ℕ → Text
unfolding decimal_digits
decimal n = decimal_digits (suc n) n []
