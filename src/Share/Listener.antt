-- ===== src/Share/Listener.antt =====
-- share/server.rs: the handshake of the listener, and what a connection comes to. A connection is the
-- bytes that its peer sends before it closes; writing to it is taken to succeed. HMAC-SHA256 and the
-- nonce are arguments, and so is whether bytes that the peer sent early are buffered.
pub mod Proof
mod Examples
use dial_f.Prelude.{
  ℕ, zero, suc, ◌+◌, ◌-◌, Bool, true, false, not, ◌&&◌, ◌||◌, Option, none, some, List, [], ◌∷◌,
  ◌++◌, if◌then◌else◌, ◌==◌, is_empty, exists,
}
use dial_f.Prelude.Outcome.{Result, ok, err}
use dial_f.Prelude.Text.{Text, bytes, text_eq, trim, split_whitespace, strip_prefix}
use dial_f.Prelude.Text.Utf8.{from_utf8_lossy}
use dial_f.Share.Handshake.{magic, max_line, verify}
use dial_f.Share.Config.Resolved.{Profile, show_profile, ResolvedShare, require_auth}

pub data AuthError : Type 0 where
  peer_closed line_too_long bad_magic wrong_profile auth_failed auth_panicked sent_early : AuthError

-- At most n bytes, up to and with the first `\n`, and what is left.
unfoldable pub take_line : ℕ → Text → Text × Text
take_line zero s = ([], s)
take_line (suc n) [] = ([], [])
take_line (suc n) (c ∷ s) =
    let (line, rest) = take_line n s in if c == 10 then (c ∷ [], s) else (c ∷ line, rest)

unfoldable pub ends_line : Text → Bool
ends_line [] = false
ends_line (c ∷ []) = c == 10
ends_line (c ∷ d ∷ s) = ends_line (d ∷ s)

unfoldable pub read_line : Text → Result AuthError Text × Text
unfolding take_line ends_line from_utf8_lossy trim
read_line s =
    let (line, rest) = take_line max_line s in
    if is_empty line
    then (err peer_closed, rest)
    else (if ends_line line
        then (ok (trim (from_utf8_lossy line)), rest)
        else (err line_too_long, rest))

-- `parts.next().unwrap_or_default()`
unfoldable pub nth_word : ℕ → List Text → Text
nth_word n [] = []
nth_word zero (w ∷ ws) = w
nth_word (suc n) (w ∷ ws) = nth_word n ws

-- What `authenticate` returns and what it writes.
abbrev pub Reply : Type 0
Reply = Result AuthError (Unit {0}) × Text

unfoldable pub auth_of : Text → Text
unfolding strip_prefix
auth_of answer = elim (strip_prefix (bytes "AUTH ") answer) [ none ↦ [] | some auth ↦ auth ]

-- The end of the handshake, behind the check of the answer.
unfoldable pub conclude : Text → Bool → Option Bool → Reply
conclude sent early none = (err auth_panicked, sent)
conclude sent early (some false) = (err auth_failed, sent ++ bytes "ERR auth failed\n")
conclude sent early (some true) =
    if early then (err sent_early, sent ++ bytes "OK\n") else (ok tt, sent ++ bytes "OK\n")

module _ (hmac : Text → Text → List ℕ) (nonce : Text) (profile : Profile) (token : Text)
    (early : Text → Bool) where
  unfoldable pub challenge : Text
  challenge = bytes "NONCE " ++ (nonce ++ bytes "\n")

  -- The answer to the nonce; `rest` are the bytes behind its line.
  unfoldable pub judge_line : Result AuthError Text × Text → Reply
  unfolding auth_of verify conclude challenge
  judge_line (err e, rest) = (err e, challenge)
  judge_line (ok answer, rest) =
      conclude challenge (early rest) (verify hmac token nonce (auth_of answer))

  -- The greeting, and then the answer.
  unfoldable pub greeted : Result AuthError Text × Text → Reply
  unfolding split_whitespace nth_word text_eq read_line judge_line show_profile
  greeted (err e, rest) = (err e, [])
  greeted (ok hello, rest) =
      let words = split_whitespace hello in
      if not (text_eq (nth_word 0 words) magic)
      then (err bad_magic, bytes "ERR bad magic\n")
      else (if not (text_eq (nth_word 1 words) (show_profile profile))
          then (
            err wrong_profile,
            bytes "ERR profile mismatch (serving " ++ (show_profile profile ++ bytes ")\n"),
          )
          else judge_line (read_line rest))

  unfoldable pub authenticate : Text → Reply
  unfolding read_line greeted
  authenticate sent = greeted (read_line sent)

-- A running share: `live` until its accept loop ends, and the time at which it stops itself.
pub record ShareHandle : Type 0 where
  pub config : ResolvedShare
  pub live : Bool
  pub expires_at : Option ℕ

-- What the connections of a share have in common.
pub record Listener : Type 0 where
  pub authed : List Text
  pub served : ℕ
  pub active : ℕ

-- How the first five seconds of a connection end: passed, refused, or timed out.
pub data Opening : Type 0 where
  opened refused timed_out : Opening

-- A handshake as an opening; `late` when it takes too long.
abbrev pub opening_of : Bool → Result AuthError (Unit {0}) → Opening
opening_of true r = timed_out
opening_of false (ok u) = opened
opening_of false (err e) = refused

-- On an open share a peer that greets with a handshake is turned away.
unfoldable pub decline_handshake : Text → Opening
unfolding strip_prefix
decline_handshake sent = elim (strip_prefix (bytes "DIAL") sent) [
  | some rest ↦ refused
  | none ↦ opened
]

-- serve_conn between the opening and the relay: the address is noted, and the connection counted.
unfoldable pub admit : Text → Opening → Listener → Listener
admit peer refused st = st
admit peer timed_out st = st
admit peer opened st = record st {
  authed = if exists (λ a. text_eq a peer) st.authed then st.authed else peer ∷ st.authed;
  served = st.served + 1;
  active = st.active + 1;
}

-- serve_conn behind the relay
unfoldable pub end_conn : Listener → Listener
end_conn st = record st { active = st.active - 1 }

-- Whether a connection to a forwarded port is taken.
unfoldable pub may_forward : Bool → Text → Listener → Bool
may_forward auth peer st = not auth || exists (λ a. text_eq a peer) st.authed

-- A connection: its peer's address, what the peer sends, the nonce that it is asked to answer, and
-- whether the handshake takes too long.
pub record Conn : Type 0 where
  pub peer : Text
  pub sent : Text
  pub nonce : Text
  pub late : Bool

module _ (hmac : Text → Text → List ℕ) (early : Text → Bool) (share : ResolvedShare) where
  unfoldable pub opening : Conn → Opening
  unfolding authenticate decline_handshake
  opening conn = elim (share.token) [
    | some token ↦
        opening_of conn.late (authenticate hmac conn.nonce share.profile token early conn.sent).0
    | none ↦ if conn.late then timed_out else decline_handshake conn.sent
  ]

  unfoldable pub serve_conn : Conn → Listener → Listener
  unfolding opening admit
  serve_conn conn st = admit conn.peer (opening conn) st

  -- The connections of a share, the newest first.
  unfoldable pub serve_all : List Conn → Listener
  unfolding serve_conn
  serve_all [] = record { authed = []; served = 0; active = 0 }
  serve_all (conn ∷ conns) = serve_conn conn (serve_all conns)
