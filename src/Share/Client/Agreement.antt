-- ===== src/Share/Client/Agreement.antt =====
-- share/server.rs and share/client.rs: the two ends of a handshake, each on what the other one sends.
use mathlib.Core.List.{append_assoc}
use dial_f.Prelude.{
  ℕ, ◌≤◌, ◌≡◌, refl, sym, ap, ◌∙◌, Bool, false, some, List, [], ◌∷◌, ◌++◌, length, is_empty,
  if◌then◌else◌, All, arith,
}
use dial_f.Prelude.Outcome.{ok, err}
use dial_f.Prelude.Text.{Text, bytes, text_eq, trim}
use dial_f.Prelude.Text.Spaces.{IsPlain}
use dial_f.Share.Handshake.{hex, verify, expected_auth, judge_answer}
use dial_f.Share.Handshake.Roundtrip.{IsByte, accepted, hex-IsPlain}
use dial_f.Share.Config.Resolved.{adb}
use dial_f.Share.Listener.{
  auth_failed, read_line, auth_of, conclude, challenge, judge_line, greeted, authenticate,
}
use dial_f.Share.Client.{
  token_rejected, read_reply, greeting, nonce_of, judge_verdict, auth_line, answer_challenge,
  challenged, connect,
}
use dial_f.Share.Client.Lines.{IsLine, read_line-line, read_reply-line}
use dial_f.Share.Client.Words.{
  behind-IsLine, length-hex, hex_full, nonce_of-nonce, auth_of-auth, hello, hello-IsLine,
  greeting-hello, greeted-hello, verdict, verdict-IsLine, judge_verdict-verdict, conclude-verdict,
  auth-IsInline, nonce-IsInline, prefix-lengths, in_front,
}

-- The steps of the two ends, once they have read a line.
module _ (hmac : Text → Text → List ℕ) where
  connect-read : (u s : Text) → connect hmac adb u s ≡ challenged hmac adb u (read_reply s)
  unfolding connect
  connect-read u s = refl

  challenged-nonce :
      (u c rest : Text) (n : Text)
      → nonce_of c ≡ some n
      → challenged hmac adb u (ok c, rest)
        ≡ (judge_verdict (read_reply rest), greeting adb ++ auth_line hmac adb u n)
  unfolding challenged answer_challenge
  challenged-nonce u c rest n h = ap (answer_challenge hmac adb u c rest) h

  authenticate-read :
      (n t : Text) (early : Text → Bool) (s : Text)
      → authenticate hmac n adb t early s ≡ greeted hmac n adb t early (read_line s)
  unfolding authenticate
  authenticate-read n t early s = refl

  judge_line-answer :
      (n t : Text) (early : Text → Bool) (a rest : Text)
      → judge_line hmac n adb t early (ok a, rest)
        ≡ conclude (bytes "NONCE " ++ (n ++ bytes "\n")) (early rest) (verify hmac t n (auth_of a))
  unfolding judge_line challenge
  judge_line-answer n t early a rest = refl

  auth_line-line :
      (u n : Text) → auth_line hmac adb u n ≡ (bytes "AUTH " ++ expected_auth hmac u n) ++ (10 ∷ [])
  unfolding auth_line
  auth_line-line u n = sym (append_assoc (bytes "AUTH ") (expected_auth hmac u n) (10 ∷ []))

-- A code that a line has room for.
abbrev pub IsDigest : List ℕ → Type 0
IsDigest ds = (is_empty ds ≡ false) × All IsByte ds × (length ds ≤ 120)

-- What the host sends to a client with the token `u`, when the share has the token `t`.
abbrev pub reply_to : (Text → Text → List ℕ) → Text → Text → Text → Text
reply_to hmac nonce t u =
    (bytes "NONCE " ++ (nonce ++ bytes "\n"))
    ++ (verdict (text_eq (hmac (trim u) nonce) (hmac (trim t) nonce)) ++ (10 ∷ []))

module _ (hmac : Text → Text → List ℕ) (digest : (k m : Text) → IsDigest (hmac k m))
    (early : Text → Bool) (quiet : early [] ≡ false) (nonce : Text) (plain : All IsPlain nonce)
    (full : is_empty nonce ≡ false) (short : length nonce ≤ 240) where
  answer-IsLine : (u : Text) → IsLine (bytes "AUTH " ++ expected_auth hmac u nonce)
  unfolding expected_auth
  answer-IsLine u =
      let ds = hmac (trim u) nonce in
      let d = digest (trim u) nonce in
      behind-IsLine (bytes "AUTH ") (hex ds) auth-IsInline.0 auth-IsInline.1 (hex-IsPlain ds d.1)
        (hex_full ds d.0) (omega (arith, prefix-lengths.0, length-hex ds, d.2))

  challenge-IsLine : IsLine (bytes "NONCE " ++ nonce)
  challenge-IsLine =
      behind-IsLine (bytes "NONCE ") nonce nonce-IsInline.0 nonce-IsInline.1 plain full
        (omega (arith, prefix-lengths.1))

  verify-other :
      (t u : Text)
      → verify hmac t nonce (expected_auth hmac u nonce)
        ≡ some (text_eq (hmac (trim u) nonce) (hmac (trim t) nonce))
  unfolding verify expected_auth judge_answer
  verify-other t u =
      let d = digest (trim u) nonce in
      ap (judge_answer (hmac (trim t) nonce)) (accepted (hmac (trim u) nonce) d.0 d.1)

  connect-reply :
      (t u : Text)
      → connect hmac adb u (reply_to hmac nonce t u) ≡ (
        (if text_eq (hmac (trim u) nonce) (hmac (trim t) nonce) then ok tt else err token_rejected),
        greeting adb ++ auth_line hmac adb u nonce,
      )
  connect-reply t u =
      let same = text_eq (hmac (trim u) nonce) (hmac (trim t) nonce) in
      let line = verdict same ++ (10 ∷ []) in
      connect-read hmac u (reply_to hmac nonce t u)
      ∙ (ap (λ s. challenged hmac adb u (read_reply s)) (in_front (bytes "NONCE ") nonce line)
          ∙ (ap (challenged hmac adb u)
                (read_reply-line (bytes "NONCE " ++ nonce) line challenge-IsLine)
              ∙ (challenged-nonce hmac u (bytes "NONCE " ++ nonce) line nonce
                    (nonce_of-nonce nonce full)
                  ∙ ap (λ r. (r, greeting adb ++ auth_line hmac adb u nonce))
                      (ap judge_verdict (read_reply-line (verdict same) [] (verdict-IsLine same))
                        ∙ judge_verdict-verdict same []))))

  authenticate-sent :
      (t u : Text)
      → authenticate hmac nonce adb t early (greeting adb ++ auth_line hmac adb u nonce) ≡ (
        (if text_eq (hmac (trim u) nonce) (hmac (trim t) nonce) then ok tt else err auth_failed),
        reply_to hmac nonce t u,
      )
  authenticate-sent t u =
      let a = bytes "AUTH " ++ expected_auth hmac u nonce in
      let sent = auth_line hmac adb u nonce in
      let asked = bytes "NONCE " ++ (nonce ++ bytes "\n") in
      authenticate-read hmac nonce t early (greeting adb ++ sent)
      ∙ (ap (λ s. greeted hmac nonce adb t early (read_line s)) (greeting-hello sent)
          ∙ (ap (greeted hmac nonce adb t early) (read_line-line hello sent hello-IsLine)
              ∙ (greeted-hello hmac nonce t early sent
                  ∙ (ap (λ s. judge_line hmac nonce adb t early (read_line s))
                        (auth_line-line hmac u nonce)
                      ∙ (ap (judge_line hmac nonce adb t early)
                            (read_line-line a [] (answer-IsLine u))
                          ∙ (judge_line-answer hmac nonce t early a []
                              ∙ (ap (λ b. conclude asked b (verify hmac t nonce (auth_of a))) quiet
                                  ∙ (ap (conclude asked false) (
                                        ap (verify hmac t nonce)
                                          (auth_of-auth (expected_auth hmac u nonce))
                                        ∙ verify-other t u)
                                      ∙ conclude-verdict asked (
                                          text_eq (hmac (trim u) nonce)
                                            (hmac (trim t) nonce))))))))))

  -- A client and a share, each on what the other one sends, whatever the code that both compute: the
  -- share takes the client, and the client the share, exactly when their tokens give the same code of
  -- the nonce; otherwise the share says that the proof failed, and the client that the token was
  -- rejected. The code has 1 to 120 bytes, the nonce 1 to 240 letters and digits, and no bytes are sent
  -- early.
  pub connect-authenticate :
      (t u : Text)
      → let same = text_eq (hmac (trim u) nonce) (hmac (trim t) nonce) in
        let (joined, sent) = connect hmac adb u (reply_to hmac nonce t u) in
        (joined ≡ (if same then ok tt else err token_rejected))
        × (authenticate hmac nonce adb t early sent
            ≡ ((if same then ok tt else err auth_failed), reply_to hmac nonce t u))
  connect-authenticate t u =
      let joins = connect-reply t u in
      (
        ap (λ p. p.0) joins,
        ap (λ p. authenticate hmac nonce adb t early p.1) joins ∙ authenticate-sent t u,
      )
