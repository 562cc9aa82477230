-- ===== src/Share/Handshake/Examples.antt =====
-- share/handshake.rs at a code of two bytes.
use dial_f.Prelude.{ℕ, ◌≡◌, refl, false, none, List, [], ◌∷◌, is_empty, All, arith}
use dial_f.Prelude.Text.{Text, bytes, trim}
use dial_f.Share.Handshake.{unhex, unhex_pairs, verify, judge_answer}
use dial_f.Share.Handshake.Roundtrip.{IsByte}

abbrev short_code : Text → Text → List ℕ
short_code key message = 1 ∷ 255 ∷ []

short_code-digest : (k m : Text) → (is_empty (short_code k m) ≡ false) × All IsByte (short_code k m)
short_code-digest k m = (refl, omega arith)

-- An answer whose second byte begins a character of two bytes cuts that character in half.
cut_character : verify short_code (bytes "dvs_x") (bytes "00") (bytes "aé0") ≡ none
unfolding verify unhex unhex_pairs trim judge_answer bytes
cut_character = refl
