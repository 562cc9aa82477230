-- ===== src/Share/Handshake.antt =====
-- share/handshake.rs: the proof that a peer holds the token of a share. HMAC-SHA256 is an argument,
-- of the key and the message.
pub mod Roundtrip
mod Examples
use dial_f.Prelude.{
  ℕ, ◌/◌, ◌%◌, Bool, false, ◌&&◌, ◌||◌, not, Option, none, some, List, [], ◌∷◌, if◌then◌else◌, leb,
  ltb, ◌==◌, length, is_empty,
}
use dial_f.Prelude.Text.{Text, bytes, text_eq, trim, parse_unsigned}
use dial_f.Prelude.Text.Utf8.{hex_digit}

abbrev pub magic : Text
magic = bytes "DIALF-SHARE/1"

abbrev pub max_line : ℕ
max_line = 256

-- `{b:02x}` of every byte
unfoldable pub hex : List ℕ → Text
unfolding hex_digit
hex [] = []
hex (b ∷ bs) = hex_digit (b / 16) ∷ hex_digit (b % 16) ∷ hex bs

-- What `unhex` comes to: no hexadecimal text, its bytes, or a panic.
pub data Unhexed : Type 0 where
  not_hex : Unhexed
  unhexed : List ℕ → Unhexed
  panicked : Unhexed

-- A byte that continues a character, so that no slice may begin at it.
abbrev pub continues : Text → Bool
continues [] = false
continues (c ∷ s) = leb 128 c && ltb c 192

abbrev pub add_byte : ℕ → Unhexed → Unhexed
add_byte v (unhexed vs) = unhexed (v ∷ vs)
add_byte v u = u

-- The slices of two bytes, each parsed before the next one is taken.
unfoldable pub unhex_pairs : Text → Unhexed
unfolding parse_unsigned
unhex_pairs [] = unhexed []
unhex_pairs (a ∷ []) = not_hex
unhex_pairs (a ∷ b ∷ s) =
    let rest = unhex_pairs s in
    if continues (a ∷ []) || continues s
    then panicked
    else elim (parse_unsigned 16 256 (a ∷ b ∷ [])) [ none ↦ not_hex | some v ↦ add_byte v rest ]

unfoldable pub unhex : Text → Unhexed
unfolding unhex_pairs
unhex s = if not (length s % 2 == 0) || is_empty s then not_hex else unhex_pairs s

-- `verify_slice`
unfoldable pub judge_answer : List ℕ → Unhexed → Option Bool
unfolding text_eq
judge_answer code not_hex = some false
judge_answer code panicked = none
judge_answer code (unhexed bs) = some (text_eq bs code)

module _ (hmac : Text → Text → List ℕ) where
  unfoldable pub expected_auth : Text → Text → Text
  unfolding hex trim
  expected_auth token nonce = hex (hmac (trim token) nonce)

  -- Whether the answer is right; none when looking at it panics.
  unfoldable pub verify : Text → Text → Text → Option Bool
  unfolding unhex trim judge_answer
  verify token nonce answer = judge_answer (hmac (trim token) nonce) (unhex (trim answer))
