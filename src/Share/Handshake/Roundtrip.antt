-- ===== src/Share/Handshake/Roundtrip.antt =====
-- share/handshake.rs: an answer and its check.
use dial_f.Prelude.{
  ℕ, ◌/◌, ◌%◌, ◌<◌, ◌≡◌, refl, ap, ◌∙◌, true, false, some, List, [], ◌∷◌, ◌==◌, length, is_empty,
  All, arith,
}
use dial_f.Prelude.Text.{Text, text_eq_refl, text_eq_iff, trim}
use dial_f.Prelude.Text.Spaces.{IsPlain, trim-plain}
use dial_f.Prelude.Text.Utf8.{hex_digit, hex_digit-range, parse_unsigned-two_digits}
use dial_f.Share.Handshake.{
  hex, Unhexed, not_hex, unhexed, panicked, continues, unhex_pairs, unhex, expected_auth, verify,
  judge_answer,
}

abbrev pub IsByte : ℕ → Type 0
IsByte b = b < 256

pub hex-IsPlain : (bs : List ℕ) → All IsByte bs → All IsPlain (hex bs)
unfolding hex
hex-IsPlain [] a = tt
hex-IsPlain (b ∷ bs) a =
    let h = hex_digit-range (b / 16) (omega arith) in
    let l = hex_digit-range (b % 16) (omega arith) in
    ((h.0, omega arith), ((l.0, omega arith), hex-IsPlain bs a.1))

continues-IsPlain : (s : Text) → All IsPlain s → continues s ≡ false
continues-IsPlain [] a = refl
continues-IsPlain (c ∷ s) a = ground arith

unhex_pairs-hex : (bs : List ℕ) → All IsByte bs → unhex_pairs (hex bs) ≡ unhexed bs
unfolding hex unhex_pairs
unhex_pairs-hex [] a = refl
unhex_pairs-hex (b ∷ bs) a =
    let h = hex_digit-range (b / 16) (omega arith) in
    let first : continues (hex_digit (b / 16) ∷ []) ≡ false =
      continues-IsPlain (hex_digit (b / 16) ∷ []) ((h.0, omega arith), tt) in
    let next = continues-IsPlain (hex bs) (hex-IsPlain bs a.1) in
    rw (first, next, parse_unsigned-two_digits b a.0, unhex_pairs-hex bs a.1) refl

length-hex : (bs : List ℕ) → length (hex bs) % 2 ≡ 0
unfolding hex
length-hex [] = refl
length-hex (b ∷ bs) = omega (arith, length-hex bs)

unhex-hex : (b : ℕ) (bs : List ℕ) → All IsByte (b ∷ bs) → unhex (hex (b ∷ bs)) ≡ unhexed (b ∷ bs)
unfolding unhex
unhex-hex b bs a =
    let e : length (hex (b ∷ bs)) % 2 == 0 ≡ true = rw (length-hex (b ∷ bs)) refl in
    let n : is_empty (hex (b ∷ bs)) ≡ false = unfold hex in refl in
    rw (unhex, e, n) (unhex_pairs-hex (b ∷ bs) a)

pub accepted :
    (ds : List ℕ) → is_empty ds ≡ false → All IsByte ds → unhex (trim (hex ds)) ≡ unhexed ds
accepted [] e a = cc
accepted (b ∷ bs) e a =
    ap unhex (trim-plain (hex (b ∷ bs)) (hex-IsPlain (b ∷ bs) a)) ∙ unhex-hex b bs a

judge_answer-true : (ds : List ℕ) (u : Unhexed) → judge_answer ds u ≡ some true → u ≡ unhexed ds
unfolding judge_answer
judge_answer-true ds not_hex h = cc
judge_answer-true ds panicked h = cc
judge_answer-true ds (unhexed bs) h = ap (λ l. unhexed l) ((text_eq_iff bs ds).0 (ground arith))

module _ (hmac : Text → Text → List ℕ)
    (digest : (k m : Text) → (is_empty (hmac k m) ≡ false) × All IsByte (hmac k m)) where
  -- For every message authentication code that yields bytes, and at least one: what a client answers
  -- with the token is accepted, and every answer that is accepted decodes to the code of the nonce
  -- under the token.
  pub verify-expected_auth :
      (token nonce : Text)
      → (verify hmac token nonce (expected_auth hmac token nonce) ≡ some true)
        × ((answer : Text)
            → verify hmac token nonce answer ≡ some true
            → unhex (trim answer) ≡ unhexed (hmac (trim token) nonce))
  unfolding verify expected_auth judge_answer
  verify-expected_auth token nonce =
      let code = hmac (trim token) nonce in
      let d = digest (trim token) nonce in
      (
        ap (judge_answer code) (accepted code d.0 d.1) ∙ ap (λ b. some b) (text_eq_refl code),
        λ answer h. judge_answer-true code (unhex (trim answer)) h,
      )
