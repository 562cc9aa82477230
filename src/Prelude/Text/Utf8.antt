-- ===== src/Prelude/Text/Utf8.antt =====
-- String::from_utf8_lossy, and numbers in hexadecimal.
use Prim.Native.Nat.{ℕ, zero, suc, ◌+◌, ◌*◌, ◌/◌, ◌%◌, ◌≤◌, ◌<◌, ◌^◌}
use mathlib.Core.Path.{◌≡◌, refl, ap, ◌∙◌}
use mathlib.Core.Logic.{◌≢◌}
use mathlib.Core.Bool.{Bool, true, false, ◌&&◌}
use mathlib.Core.Option.{some}
use mathlib.Core.List.{[], ◌∷◌}
use native.Mathlib.Omega.{arith}
use dial_f.Prelude.Tests.{lt→ltb, ltb, leb, ◌==◌, if◌then◌else◌}
use dial_f.Prelude.Lists.{All}
use dial_f.Prelude.Text.{Text, digit_value, parse_digits, parse_unsigned}

between : ℕ → ℕ → ℕ → Bool
between lo hi c = leb lo c && leb c hi

-- How many bytes behind a lead byte belong to it, and whether they make a character with it.
one_more : Text → ℕ × Bool
unfolding between
one_more [] = (0, false)
one_more (c ∷ r) = if between 0x80 0xbf c then (1, true) else (0, false)

two_more : ℕ → ℕ → Text → ℕ × Bool
unfolding between
two_more lo hi [] = (0, false)
two_more lo hi (c ∷ []) = if between lo hi c then (1, false) else (0, false)
two_more lo hi (c ∷ d ∷ r) =
    if between lo hi c then (if between 0x80 0xbf d then (2, true) else (1, false)) else (0, false)

three_more : ℕ → ℕ → Text → ℕ × Bool
unfolding between
three_more lo hi (c ∷ d ∷ e ∷ r) =
    if between lo hi c
    then (if between 0x80 0xbf d
        then (if between 0x80 0xbf e then (3, true) else (2, false))
        else (1, false))
    else (0, false)
three_more lo hi (c ∷ d ∷ []) =
    if between lo hi c then (if between 0x80 0xbf d then (2, false) else (1, false)) else (0, false)
three_more lo hi (c ∷ []) = if between lo hi c then (1, false) else (0, false)
three_more lo hi [] = (0, false)

decode_at : ℕ → Text → ℕ × Bool
unfolding one_more two_more three_more
decode_at b r =
    if ltb b 0x80
    then (0, true)
    else if between 0xc2 0xdf b
    then one_more r
    else if b == 0xe0
    then two_more 0xa0 0xbf r
    else if b == 0xed
    then two_more 0x80 0x9f r
    else if between 0xe1 0xef b
    then two_more 0x80 0xbf r
    else if b == 0xf0
    then three_more 0x90 0xbf r
    else if between 0xf1 0xf3 b
    then three_more 0x80 0xbf r
    else if b == 0xf4
    then three_more 0x80 0x8f r
    else (0, false)

-- `n` bytes of the current character are left; they are kept if it is well formed.
lossy_from : ℕ → Bool → Text → Text
unfolding decode_at
lossy_from n good [] = []
lossy_from (suc n) good (b ∷ r) = let rest = lossy_from n good r in if good then b ∷ rest else rest
lossy_from zero good (b ∷ r) =
    let (k, whole) = decode_at b r in
    let rest = lossy_from k whole r in if whole then b ∷ rest else 0xef ∷ 0xbf ∷ 0xbd ∷ rest

-- Each ill-formed part becomes U+FFFD.
unfoldable pub from_utf8_lossy : Text → Text
unfolding lossy_from
from_utf8_lossy s = lossy_from 0 true s

lossy_from-ascii : (s : Text) (good : Bool) → All (λ c. c < 128) s → lossy_from 0 good s ≡ s
unfolding lossy_from
lossy_from-ascii [] good a = refl
lossy_from-ascii (c ∷ s) good a = ground (arith, lossy_from-ascii s true a.1)

-- ASCII is left as it is.
pub from_utf8_lossy-ascii : (s : Text) → All (λ c. c < 128) s → from_utf8_lossy s ≡ s
unfolding from_utf8_lossy
from_utf8_lossy-ascii s a = lossy_from-ascii s true a

unfoldable pub hex_digit : ℕ → ℕ
hex_digit d = if ltb d 10 then 48 + d else 87 + d

-- The hexadecimal digits of a number below 16 ^ fuel, without leading zeros, before `acc`.
hex_digits : ℕ → ℕ → Text → Text
unfolding hex_digit
hex_digits zero n acc = acc
hex_digits (suc fuel) n acc =
    let rest = hex_digits fuel (n / 16) (hex_digit (n % 16) ∷ acc) in if n == 0 then acc else rest

-- format!("{:04x}") of a usize.
unfoldable pub hex4 : ℕ → Text
unfolding hex_digits
hex4 n =
    let low =
      hex_digit (n / 4096 % 16)
      ∷ hex_digit (n / 256 % 16)
      ∷ hex_digit (n / 16 % 16)
      ∷ hex_digit (n % 16)
      ∷ [] in
    if ltb n 0x10000 then low else hex_digits 12 (n / 0x10000) low

pub digit_value-hex_digit : (d : ℕ) → d < 16 → digit_value 16 (hex_digit d) ≡ some d
unfolding digit_value hex_digit
digit_value-hex_digit d h = ground arith

hex_digit-ne : (d : ℕ) → hex_digit d ≢ 43
unfolding hex_digit
hex_digit-ne d h = ground arith

parse_digits-hex_digit :
    (bound acc d : ℕ) (s : Text)
    → d < 16
    → acc * 16 + d < bound
    → parse_digits 16 bound acc (hex_digit d ∷ s) ≡ parse_digits 16 bound (acc * 16 + d) s
unfolding parse_digits
parse_digits-hex_digit bound acc d s h k =
    rw (digit_value-hex_digit d h, parse_digits) (rw (lt→ltb _ _ k))

parse_four :
    (a b c d bound : ℕ)
    → a < 16
    → b < 16
    → c < 16
    → d < 16
    → 65536 ≤ bound
    → parse_digits 16 bound 0 (hex_digit a ∷ hex_digit b ∷ hex_digit c ∷ hex_digit d ∷ [])
      ≡ some (((a * 16 + b) * 16 + c) * 16 + d)
parse_four a b c d bound ha hb hc hd k =
    parse_digits-hex_digit bound 0 a _ ha (omega arith)
    ∙ (parse_digits-hex_digit bound (0 * 16 + a) b _ hb (omega arith)
        ∙ (parse_digits-hex_digit bound ((0 * 16 + a) * 16 + b) c _ hc (omega arith)
            ∙ (parse_digits-hex_digit bound (((0 * 16 + a) * 16 + b) * 16 + c) d _ hd (omega arith)
                ∙ unfold parse_digits in ap some (omega arith))))

abbrev pub four_digits : ℕ → Text
four_digits n =
    hex_digit (n / 4096 % 16)
    ∷ hex_digit (n / 256 % 16)
    ∷ hex_digit (n / 16 % 16)
    ∷ hex_digit (n % 16)
    ∷ []

-- A number below 65536 is written as four digits.
pub hex4-four_digits : (n : ℕ) → n < 65536 → hex4 n ≡ four_digits n
unfolding hex4
hex4-four_digits n h = rw (lt→ltb _ _ h)

parse_unsigned-no_sign :
    (bound c d : ℕ) (s : Text)
    → c ≢ 43
    → parse_unsigned 16 bound (c ∷ d ∷ s) ≡ parse_digits 16 bound 0 (c ∷ d ∷ s)
unfolding parse_unsigned
parse_unsigned-no_sign bound c d s h = ground arith

-- A length that is written as four digits is read back.
pub parse_unsigned-four_digits :
    (n : ℕ) → n < 65536 → parse_unsigned 16 (2 ^ 64) (four_digits n) ≡ some n
parse_unsigned-four_digits n h =
    parse_unsigned-no_sign (2 ^ 64) _ _ _ (hex_digit-ne (n / 4096 % 16))
    ∙ (parse_four (n / 4096 % 16) (n / 256 % 16) (n / 16 % 16) (n % 16) (2 ^ 64) (omega arith)
          (omega arith) (omega arith) (omega arith) (omega arith)
        ∙ ap some (omega arith))

-- A byte that is written as two digits is read back.
pub parse_unsigned-two_digits :
    (b : ℕ)
    → b < 256
    → parse_unsigned 16 256 (hex_digit (b / 16) ∷ hex_digit (b % 16) ∷ []) ≡ some b
parse_unsigned-two_digits b h =
    parse_unsigned-no_sign 256 _ _ [] (hex_digit-ne (b / 16))
    ∙ (parse_digits-hex_digit 256 0 (b / 16) _ (omega arith) (omega arith)
        ∙ (parse_digits-hex_digit 256 (0 * 16 + b / 16) (b % 16) [] (omega arith) (omega arith)
            ∙ unfold parse_digits in ap some (omega arith)))

pub hex_digit-range : (d : ℕ) → d < 16 → (48 ≤ hex_digit d) × (hex_digit d ≤ 102)
unfolding hex_digit
hex_digit-range d h = ground arith
