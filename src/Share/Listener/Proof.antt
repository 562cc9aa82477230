-- ===== src/Share/Listener/Proof.antt =====
-- share/server.rs: what a peer must have sent before a handshake passes, and before its address may use
-- a forwarded port.
use dial_f.Prelude.{
  ℕ, ◌≡◌, refl, sym, ap, ◌∙◌, Bool, true, false, not, ◌&&◌, ◌||◌, Option, none, some, List, [], ◌∷◌,
  if◌then◌else◌, exists, exists-true, Memᴰ, arith, Bool-cases, inl, inr,
}
use dial_f.Prelude.Outcome.{Result, ok, err}
use dial_f.Prelude.Text.{Text, text_eq, text_eq_iff, split_whitespace}
use dial_f.Share.Handshake.{magic, verify}
use dial_f.Share.Config.Resolved.{Profile, show_profile, ResolvedShare}
use dial_f.Share.Listener.{
  AuthError, read_line, nth_word, Reply, auth_of, conclude, challenge, judge_line, greeted,
  authenticate, Listener, Opening, opening_of, opened, refused, timed_out, admit, may_forward, Conn,
  opening, serve_conn, serve_all,
}

abbrev pub is_opened : Opening → Bool
is_opened opened = true
is_opened refused = false
is_opened timed_out = false

exists-same :
    (p q : Text) (ps : List Text)
    → text_eq p q ≡ true
    → exists (λ a. text_eq a q) ps ≡ exists (λ a. text_eq a p) ps
exists-same p q ps e = ap (λ t. exists (λ a. text_eq a t) ps) (sym ((text_eq_iff p q).0 e))

exists-noted :
    (p q : Text) (ps : List Text)
    → exists (λ a. text_eq a q) (if exists (λ a. text_eq a p) ps then ps else p ∷ ps)
      ≡ (text_eq p q || exists (λ a. text_eq a q) ps)
exists-noted p q ps = elim (Bool-cases (exists (λ a. text_eq a p) ps)) [
  | inr e ↦ rw e refl
  | inl e ↦ elim (Bool-cases (text_eq p q)) [
    | inr d ↦ rw (e, d) refl
    | inl d ↦ rw (e, d) (exists-same p q ps d ∙ e)
  ]
]

conclude-ok :
    (sent : Text) (early : Bool) (v : Option Bool)
    → (conclude sent early v).0 ≡ ok tt
    → (v ≡ some true) × (early ≡ false)
unfolding conclude
conclude-ok sent early none h = cc
conclude-ok sent early (some false) h = cc
conclude-ok sent true (some true) h = cc
conclude-ok sent false (some true) h = (refl, refl)

module _ (hmac : Text → Text → List ℕ) (early : Text → Bool) (share : ResolvedShare) where
  abbrev pub opens : Conn → Bool
  opens conn = is_opened (opening hmac early share conn)

  admit-authed :
      (conn : Conn) (q : Text) (o : Opening) (st : Listener)
      → exists (λ a. text_eq a q) (admit conn.peer o st).authed
        ≡ (text_eq conn.peer q && is_opened o) || exists (λ a. text_eq a q) st.authed
  unfolding admit
  admit-authed conn q refused st = ground arith
  admit-authed conn q timed_out st = ground arith
  admit-authed conn q opened st = exists-noted conn.peer q st.authed ∙ ground arith

  serve_all-authed :
      (conns : List Conn) (q : Text)
      → exists (λ a. text_eq a q) (serve_all hmac early share conns).authed
        ≡ exists (λ c. text_eq c.peer q && opens c) conns
  unfolding serve_all serve_conn
  serve_all-authed [] q = refl
  serve_all-authed (conn ∷ conns) q =
      admit-authed conn q (opening hmac early share conn) (serve_all hmac early share conns)
      ∙ ap (λ b. (text_eq conn.peer q && opens conn) || b) (serve_all-authed conns q)

-- A test in front of an answer that was accepted was passed.
passed-test :
    (b : Bool) (e : AuthError) (sent : Text) (r : Reply)
    → (if not b then (err e, sent) else r).0 ≡ ok tt
    → (b ≡ true) × (r.0 ≡ ok tt)
passed-test true e sent r h = (refl, h)
passed-test false e sent r h = cc

module _ (hmac : Text → Text → List ℕ) (nonce : Text) (profile : Profile) (token : Text)
    (early : Text → Bool) where
  -- The line of an answer that proves the token, with nothing sent behind it.
  abbrev pub IsAnswer : Result AuthError Text × Text → Type 0
  IsAnswer line =
      (answer : Text) × (line.0 ≡ ok answer)
      × (verify hmac token nonce (auth_of answer) ≡ some true)
      × (early line.1 ≡ false)

  judge_line-ok :
      (line : Result AuthError Text × Text)
      → (judge_line hmac nonce profile token early line).0 ≡ ok tt
      → IsAnswer line
  unfolding judge_line
  judge_line-ok (err e, rest) h = cc
  judge_line-ok (ok answer, rest) h =
      let c =
        conclude-ok (challenge hmac nonce profile token early) (early rest)
          (verify hmac token nonce (auth_of answer)) h in
      (answer, refl, c.0, c.1)

  -- A first line that greets as the share does, and behind it such an answer.
  abbrev pub IsGreeted : Result AuthError Text × Text → Type 0
  IsGreeted line =
      (hello : Text) × (line.0 ≡ ok hello)
      × (nth_word 0 (split_whitespace hello) ≡ magic)
      × (nth_word 1 (split_whitespace hello) ≡ show_profile profile)
      × IsAnswer (read_line line.1)

  greeted-ok :
      (line : Result AuthError Text × Text)
      → (greeted hmac nonce profile token early line).0 ≡ ok tt
      → IsGreeted line
  unfolding greeted
  greeted-ok (err e, rest) h = cc
  greeted-ok (ok hello, rest) h =
      let words = split_whitespace hello in
      let a = passed-test (text_eq (nth_word 0 words) magic) _ _ _ h in
      let b = passed-test (text_eq (nth_word 1 words) (show_profile profile)) _ _ _ a.1 in
      (
        hello,
        refl,
        (text_eq_iff (nth_word 0 words) magic).0 a.0,
        (text_eq_iff (nth_word 1 words) (show_profile profile)).0 b.0,
        judge_line-ok (read_line rest) b.1,
      )

  -- A handshake that is accepted: the first line greets with the magic word and the profile of the
  -- share, the second is the right answer to the nonce under the token, and nothing that the peer sent
  -- early is behind it.
  pub authenticate-IsGreeted :
      (sent : Text)
      → (authenticate hmac nonce profile token early sent).0 ≡ ok tt
      → IsGreeted (read_line sent)
  unfolding authenticate
  authenticate-IsGreeted sent h = greeted-ok (read_line sent) h

both : (a b : Bool) → (a && b) ≡ true → (a ≡ true) × (b ≡ true)
both true b h = (refl, h)
both false b h = cc

opened-ok :
    (late : Bool) (r : Result AuthError (Unit {0}))
    → is_opened (opening_of late r) ≡ true
    → (late ≡ false) × (r ≡ ok tt)
opened-ok true r h = cc
opened-ok false (ok u) h = (refl, refl)
opened-ok false (err e) h = cc

module _ (hmac : Text → Text → List ℕ) (early : Text → Bool) (share : ResolvedShare) where
  -- A connection from `q` among `conns` that was in time and proved the token.
  abbrev pub Proved : Text → Text → List Conn → Type 0
  Proved token q conns =
      (conn : Conn) × Memᴰ conn conns
      × (conn.peer ≡ q)
      × (conn.late ≡ false)
      × IsGreeted hmac conn.nonce share.profile token early (read_line conn.sent)

  opens-IsGreeted :
      (token : Text) (conn : Conn)
      → share.token ≡ some token
      → opens hmac early share conn ≡ true
      → (conn.late ≡ false)
        × IsGreeted hmac conn.nonce share.profile token early (read_line conn.sent)
  unfolding opening
  opens-IsGreeted token conn at h =
      let a = authenticate hmac conn.nonce share.profile token early conn.sent in
      let (in_time, passed) = opened-ok conn.late a.0 (rw at at h) in
      (in_time, authenticate-IsGreeted hmac conn.nonce share.profile token early conn.sent passed)

  -- Whatever connections a share with a token serves, in whatever order: a connection to a forwarded
  -- port is taken from an address only when an earlier connection to the share from that very address
  -- sent, within the time that it has, the greeting of the share and the right answer to its nonce
  -- under the token, with nothing sent early behind it.
  pub serve_all-Proved :
      (token : Text) (conns : List Conn) (q : Text)
      → share.token ≡ some token
      → may_forward true q (serve_all hmac early share conns) ≡ true
      → Proved token q conns
  unfolding may_forward
  serve_all-Proved token conns q at h =
      let (conn, there, e) =
        exists-true (λ c. text_eq c.peer q && opens hmac early share c) conns
          (sym (serve_all-authed hmac early share conns q) ∙ h) in
      let (same, passes) = both (text_eq conn.peer q) (opens hmac early share conn) e in
      let (in_time, greeted) = opens-IsGreeted token conn at passes in
      (conn, there, (text_eq_iff conn.peer q).0 same, in_time, greeted)
