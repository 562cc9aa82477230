-- ===== src/Share/Client/Lines.antt =====
-- share/server.rs and share/client.rs: a line that one end writes is read by the other.
use dial_f.Prelude.{
  ℕ, zero, suc, ◌≤◌, ◌<◌, ◌≡◌, refl, ap, ◌∙◌, true, false, [], ◌∷◌, ◌++◌, reverse, length, is_empty,
  ◌==◌, All, arith,
}
use dial_f.Prelude.Outcome.{ok}
use dial_f.Prelude.Text.{Text, trim}
use dial_f.Prelude.Text.Spaces.{StartsPlain, trim-newline}
use dial_f.Prelude.Text.Utf8.{from_utf8_lossy, from_utf8_lossy-ascii}
use dial_f.Share.Handshake.{max_line}
use dial_f.Share.Listener.{take_line, ends_line, read_line}
use dial_f.Share.Client.{read_reply}

-- Bytes of ASCII, beyond the newline.
abbrev pub IsInline : ℕ → Type 0
IsInline c = (11 ≤ c) × (c < 128)

-- What can stand on a line and is read back as it is.
abbrev pub IsLine : Text → Type 0
IsLine s = All IsInline s × (length s < max_line) × StartsPlain s × StartsPlain (reverse s)

take_line-line :
    (n : ℕ) (s rest : Text)
    → All IsInline s
    → length s < n
    → take_line n (s ++ (10 ∷ rest)) ≡ (s ++ (10 ∷ []), rest)
unfolding take_line
take_line-line zero s rest a h = absurd (omega arith)
take_line-line (suc n) [] rest a h = refl
take_line-line (suc n) (c ∷ s) rest a h =
    let e : c == 10 ≡ false = ground arith in rw (e, take_line-line n s rest a.1 (omega arith)) refl

ends_line-newline : (s : Text) → ends_line (s ++ (10 ∷ [])) ≡ true
unfolding ends_line
ends_line-newline [] = refl
ends_line-newline (c ∷ []) = refl
ends_line-newline (c ∷ d ∷ s) = ends_line-newline (d ∷ s)

not_empty : (s : Text) → is_empty (s ++ (10 ∷ [])) ≡ false
not_empty [] = refl
not_empty (c ∷ s) = refl

All-ascii : (s : Text) → All IsInline s → All (λ c. c < 128) (s ++ (10 ∷ []))
All-ascii [] a = (omega arith, tt)
All-ascii (c ∷ s) a = (a.0.1, All-ascii s a.1)

text-line : (s : Text) → IsLine s → trim (from_utf8_lossy (s ++ (10 ∷ []))) ≡ s
text-line s (a, n, h, k) =
    ap trim (from_utf8_lossy-ascii (s ++ (10 ∷ [])) (All-ascii s a)) ∙ trim-newline s h k

pub read_line-line : (s rest : Text) → IsLine s → read_line (s ++ (10 ∷ rest)) ≡ (ok s, rest)
unfolding read_line
read_line-line s rest l =
    rw (take_line-line max_line s rest l.0 l.1, not_empty s, ends_line-newline s, text-line s l)
      refl

pub read_reply-line : (s rest : Text) → IsLine s → read_reply (s ++ (10 ∷ rest)) ≡ (ok s, rest)
unfolding read_reply
read_reply-line s rest l =
    rw (take_line-line max_line s rest l.0 l.1, not_empty s, text-line s l) refl
