-- ===== src/Share/Client/Examples.antt =====
-- share/client.rs at a code of two bytes, and at the targets of its tests.
use dial_f.Prelude.{ℕ, ◌≡◌, refl, Bool, not, List, [], ◌∷◌, is_empty, arith, if◌then◌else◌}
use dial_f.Prelude.Outcome.{ok, err}
use dial_f.Prelude.Text.{Text, bytes, text_eq, trim}
use dial_f.Share.Config.Resolved.{adb}
use dial_f.Share.Listener.{auth_failed, authenticate}
use dial_f.Share.Client.{token_rejected, bare_ipv6, connect, target_addr}
use dial_f.Share.Client.Agreement.{IsDigest, connect-authenticate, reply_to}

-- A code that tells some tokens apart.
abbrev code_of : Text → Text → List ℕ
code_of [] message = 0 ∷ []
code_of (c ∷ key) message = 255 ∷ []

code_of-IsDigest : (k m : Text) → IsDigest (code_of k m)
code_of-IsDigest [] m = (refl, omega arith, omega arith)
code_of-IsDigest (c ∷ k) m = (refl, omega arith, omega arith)

abbrev early_of : Text → Bool
early_of rest = not (is_empty rest)

connect-authenticate_example :
    let same =
      text_eq (code_of (trim []) (bytes "a1")) (code_of (trim (bytes "dvs_x")) (bytes "a1")) in
    let (joined, sent) =
      connect code_of adb [] (reply_to code_of (bytes "a1") (bytes "dvs_x") []) in
    (joined ≡ (if same then ok tt else err token_rejected))
    × (authenticate code_of (bytes "a1") adb (bytes "dvs_x") early_of sent ≡ (
      (if same then ok tt else err auth_failed),
      reply_to code_of (bytes "a1") (bytes "dvs_x") [],
    ))
connect-authenticate_example =
    connect-authenticate code_of code_of-IsDigest early_of refl (bytes "a1")
      (unfold bytes in omega arith) (unfold bytes in refl) (unfold bytes in omega arith)
      (bytes "dvs_x") []

default_port_added : target_addr (bytes " mac-mini.local ") adb ≡ ok (bytes "mac-mini.local:5939")
unfolding target_addr bytes
default_port_added = refl

brackets_wanted : target_addr (bytes "::1:5038") adb ≡ err bare_ipv6
unfolding target_addr bytes
brackets_wanted = refl

bracketed_target : target_addr (bytes "[::1]:6000") adb ≡ ok (bytes "[::1]:6000")
unfolding target_addr bytes
bracketed_target = refl
