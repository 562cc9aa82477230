-- ===== src/Share/Client/Words.antt =====
-- share/client.rs and share/server.rs: the lines of the handshake.
use mathlib.Core.List.{append_assoc, reverse-append, reverse-cons}
use dial_f.Prelude.{
  ℕ, ◌+◌, ◌*◌, ◌<◌, ◌≡◌, refl, sym, ap, ◌∙◌, Bool, true, false, some, List, [], ◌∷◌, ◌++◌, reverse,
  length, length-append, is_empty, if◌then◌else◌, All, All-append, arith,
}
use dial_f.Prelude.Outcome.{ok, err}
use dial_f.Prelude.Text.{Text, bytes}
use dial_f.Prelude.Text.Spaces.{IsPlain, StartsPlain}
use dial_f.Share.Handshake.{hex, max_line}
use dial_f.Share.Config.Resolved.{adb}
use dial_f.Share.Listener.{auth_failed, read_line, auth_of, conclude, judge_line, greeted}
use dial_f.Share.Client.{token_rejected, greeting, nonce_of, judge_verdict}
use dial_f.Share.Client.Lines.{IsInline, IsLine}

plain-All : (s : Text) → All IsPlain s → All IsInline s
plain-All [] a = tt
plain-All (c ∷ s) a = ((omega (arith, a.0.0), omega (arith, a.0.1)), plain-All s a.1)

plain-ends : (s : Text) → All IsPlain s → is_empty s ≡ false → StartsPlain (reverse s)
plain-ends [] a h = cc
plain-ends (c ∷ []) a h = a.0
plain-ends (c ∷ d ∷ s) a h =
    rw (reverse-cons c (d ∷ s)) (starts (reverse (d ∷ s)) (plain-ends (d ∷ s) a.1 refl))
  where
    starts : (t : Text) → StartsPlain t → StartsPlain (t ++ (c ∷ []))
    starts [] k = absurd k
    starts (e ∷ t) k = k

-- A plain text behind a prefix is a line.
pub behind-IsLine :
    (p s : Text)
    → All IsInline p
    → StartsPlain p
    → All IsPlain s
    → is_empty s ≡ false
    → length p + length s < max_line
    → IsLine (p ++ s)
behind-IsLine p s a b c n h = (
  All-append IsInline p s a (plain-All s c),
  omega (arith, length-append p s),
  starts p s b,
  rw (reverse-append p s) (starts (reverse s) (reverse p) (plain-ends s c n)),
)
  where
    starts : (t u : Text) → StartsPlain t → StartsPlain (t ++ u)
    starts [] u k = absurd k
    starts (e ∷ t) u k = k

pub length-hex : (ds : List ℕ) → length (hex ds) ≡ 2 * length ds
unfolding hex
length-hex [] = refl
length-hex (d ∷ ds) = omega (arith, length-hex ds)

pub hex_full : (ds : List ℕ) → is_empty ds ≡ false → is_empty (hex ds) ≡ false
unfolding hex
hex_full [] h = cc
hex_full (d ∷ ds) h = refl

pub nonce_of-nonce : (n : Text) → is_empty n ≡ false → nonce_of (bytes "NONCE " ++ n) ≡ some n
unfolding nonce_of bytes
nonce_of-nonce [] h = cc
nonce_of-nonce (c ∷ n) h = refl

pub auth_of-auth : (a : Text) → auth_of (bytes "AUTH " ++ a) ≡ a
unfolding auth_of bytes
auth_of-auth a = refl

abbrev pub hello : Text
hello = bytes "DIALF-SHARE/1 adb"

pub hello-IsLine : IsLine hello
unfolding bytes
hello-IsLine = omega arith

pub greeting-hello : (s : Text) → greeting adb ++ s ≡ hello ++ (10 ∷ s)
unfolding greeting bytes
greeting-hello s = refl

-- The right words of the greeting.
pub greeted-hello :
    (hmac : Text → Text → List ℕ) (nonce token : Text) (early : Text → Bool) (rest : Text)
    → greeted hmac nonce adb token early (ok hello, rest)
      ≡ judge_line hmac nonce adb token early (read_line rest)
unfolding greeted bytes
greeted-hello hmac nonce token early rest = refl

-- The line of the host that follows the check of an answer.
abbrev pub verdict : Bool → Text
verdict same = if same then bytes "OK" else bytes "ERR auth failed"

pub verdict-IsLine : (same : Bool) → IsLine (verdict same)
unfolding bytes
verdict-IsLine true = omega arith
verdict-IsLine false = omega arith

pub judge_verdict-verdict :
    (same : Bool) (rest : Text)
    → judge_verdict (ok (verdict same), rest) ≡ (if same then ok tt else err token_rejected)
unfolding judge_verdict bytes
judge_verdict-verdict true rest = refl
judge_verdict-verdict false rest = refl

pub conclude-verdict :
    (sent : Text) (same : Bool)
    → conclude sent false (some same)
      ≡ ((if same then ok tt else err auth_failed), sent ++ (verdict same ++ (10 ∷ [])))
unfolding conclude bytes
conclude-verdict sent true = refl
conclude-verdict sent false = refl

pub auth-IsInline : All IsInline (bytes "AUTH ") × StartsPlain (bytes "AUTH ")
unfolding bytes
auth-IsInline = omega arith

pub nonce-IsInline : All IsInline (bytes "NONCE ") × StartsPlain (bytes "NONCE ")
unfolding bytes
nonce-IsInline = omega arith

pub prefix-lengths : (length (bytes "AUTH ") ≡ 5) × (length (bytes "NONCE ") ≡ 6)
unfolding bytes
prefix-lengths = (refl, refl)

newline : bytes "\n" ≡ 10 ∷ []
unfolding bytes
newline = refl

-- A line in front of other bytes.
pub in_front : (a b v : Text) → (a ++ (b ++ bytes "\n")) ++ v ≡ (a ++ b) ++ (10 ∷ v)
in_front a b v =
    ap (λ t. (a ++ (b ++ t)) ++ v) newline
    ∙ (append_assoc a (b ++ (10 ∷ [])) v
        ∙ (ap (λ t. a ++ t) (append_assoc b (10 ∷ []) v) ∙ sym (append_assoc a b (10 ∷ v))))
