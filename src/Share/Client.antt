-- ===== src/Share/Client.antt =====
-- share/client.rs: the end of a share on the other machine. A connection is the bytes that the host
-- sends back before it closes; writing to it is taken to succeed. The code drops what it has read behind
-- a line, which is nothing, since a host waits for an answer to each of its lines. HMAC-SHA256 is an
-- argument.
mod Lines
pub mod Words
pub mod Agreement
mod Examples
use dial_f.Prelude.{
  ℕ, suc, ◌+◌, Bool, true, false, not, ◌&&◌, Option, none, some, List, [], ◌∷◌, ◌++◌, if◌then◌else◌,
  ltb, ◌==◌, is_empty,
}
use dial_f.Prelude.Outcome.{Result, ok, err, ◌>>=◌, ◌>>◌, bail_if, ok_or}
use dial_f.Prelude.Text.{Text, bytes, text_eq, trim, strip_prefix, decimal}
use dial_f.Prelude.Text.Utf8.{from_utf8_lossy}
use dial_f.Share.Handshake.{magic, max_line, expected_auth}
use dial_f.Share.Config.Resolved.{Profile, show_profile, default_port}
use dial_f.Share.Listener.{take_line}

pub data TargetError : Type 0 where
  empty_target unterminated bare_ipv6 : TargetError

-- `split_once(c)`
unfoldable pub split_once : ℕ → Text → Option (Text × Text)
split_once d [] = none
split_once d (c ∷ s) =
    let rest = split_once d s in
    if c == d then some ([], s) else elim rest [ none ↦ none | some (a, b) ↦ some (c ∷ a, b) ]

unfoldable pub count : ℕ → Text → ℕ
count d [] = 0
count d (c ∷ s) = let rest = count d s in if c == d then suc rest else rest

-- `format!("{host}:{port}")`
abbrev pub with_port : Text → Text → Text
with_port host port = host ++ (58 ∷ port)

-- What stands behind `]`.
unfoldable pub bracketed : Profile → Text → Text → Text
unfolding decimal
bracketed profile host [] = with_port (91 ∷ (host ++ (93 ∷ []))) (decimal (default_port profile))
bracketed profile host (c ∷ port) =
    if c == 58 && not (is_empty port)
    then with_port (91 ∷ (host ++ (93 ∷ []))) port
    else with_port (91 ∷ (host ++ (93 ∷ []))) (decimal (default_port profile))

-- A target with no bracket. With one colon at most, the last one is the first one.
unfoldable pub unbracketed : Profile → Text → Option (Text × Text) → Result TargetError Text
unfolding count decimal
unbracketed profile t none = ok (with_port t (decimal (default_port profile)))
unbracketed profile t (some (host, port)) =
    if ltb 1 (count 58 t)
    then err bare_ipv6
    else if not (is_empty host) && not (is_empty port)
    then ok (with_port host port)
    else ok (with_port t (decimal (default_port profile)))

-- What is left of a target behind `[`, if it begins with one.
unfoldable pub place : Profile → Text → Option Text → Result TargetError Text
unfolding split_once bracketed unbracketed
place profile t (some rest) = do
  (host, tail) ← ok_or (split_once 93 rest) unterminated
  ok (bracketed profile host tail)
place profile t none = unbracketed profile t (split_once 58 t)

unfoldable pub target_addr : Text → Profile → Result TargetError Text
unfolding trim strip_prefix place
target_addr target profile =
    let t = trim target in
    if is_empty t then err empty_target else place profile t (strip_prefix (bytes "[") t)

-- Why a share could not be used.
pub data Refusal : Type 0 where
  token_rejected not_a_share closed : Refusal
  refused unexpected : Text → Refusal

-- What a line behind `ERR ` says.
unfoldable pub refusal_of : Text → Refusal
unfolding text_eq
refusal_of reason =
    if text_eq reason (bytes "auth failed")
    then token_rejected
    else if text_eq reason (bytes "bad magic")
    then not_a_share
    else refused reason

unfoldable pub describe_refusal : Text → Refusal
unfolding strip_prefix refusal_of
describe_refusal line = elim (strip_prefix (bytes "ERR ") line) [
  | some reason ↦ refusal_of reason
  | none ↦ if is_empty line then closed else unexpected line
]

unfoldable pub read_reply : Text → Result Refusal Text × Text
unfolding take_line from_utf8_lossy trim
read_reply s =
    let (line, rest) = take_line max_line s in
    if is_empty line then (err closed, rest) else (ok (trim (from_utf8_lossy line)), rest)

-- The first line that a client sends.
unfoldable pub greeting : Profile → Text
unfolding show_profile
greeting profile = magic ++ (32 ∷ (show_profile profile ++ (10 ∷ [])))

-- The nonce of a challenge.
unfoldable pub nonce_of : Text → Option Text
unfolding strip_prefix
nonce_of challenge = elim (strip_prefix (bytes "NONCE ") challenge) [
  | none ↦ none
  | some [] ↦ none
  | some (c ∷ n) ↦ some (c ∷ n)
]

-- The last line of the host.
unfoldable pub judge_verdict : Result Refusal Text × Text → Result Refusal (Unit {0})
unfolding text_eq describe_refusal
judge_verdict (err e, rest) = err e
judge_verdict (ok verdict, rest) =
    if text_eq verdict (bytes "OK") then ok tt else err (describe_refusal verdict)

module _ (hmac : Text → Text → List ℕ) (profile : Profile) (token : Text) where
  unfoldable pub auth_line : Text → Text
  unfolding expected_auth
  auth_line nonce = bytes "AUTH " ++ (expected_auth hmac token nonce ++ (10 ∷ []))

  -- What `connect` returns, and the bytes that it sends.
  unfoldable pub answer_challenge : Text → Text → Option Text → Result Refusal (Unit {0}) × Text
  unfolding describe_refusal greeting auth_line judge_verdict read_reply
  answer_challenge challenge rest none = (err (describe_refusal challenge), greeting profile)
  answer_challenge challenge rest (some nonce) =
      (judge_verdict (read_reply rest), greeting profile ++ auth_line nonce)

  unfoldable pub challenged : Result Refusal Text × Text → Result Refusal (Unit {0}) × Text
  unfolding greeting nonce_of answer_challenge
  challenged (err e, rest) = (err e, greeting profile)
  challenged (ok challenge, rest) = answer_challenge challenge rest (nonce_of challenge)

  unfoldable pub connect : Text → Result Refusal (Unit {0}) × Text
  unfolding read_reply challenged
  connect replies = challenged (read_reply replies)
