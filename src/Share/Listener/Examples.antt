-- ===== src/Share/Listener/Examples.antt =====
-- share/server.rs at a code of two bytes: a peer that answers, and one that only greets.
use dial_f.Prelude.{ℕ, ◌≡◌, refl, Bool, true, false, not, some, none, List, [], ◌∷◌, ◌++◌, is_empty}
use dial_f.Prelude.Text.{Text, bytes}
use dial_f.Share.Adb.{all}
use dial_f.Share.Config.{tcp}
use dial_f.Share.Config.Resolved.{adb, ResolvedShare}
use dial_f.Share.Listener.{read_line, authenticate, may_forward, Conn, serve_all}
use dial_f.Share.Listener.Proof.{IsGreeted, Proved, serve_all-Proved, authenticate-IsGreeted}

abbrev code_of : Text → Text → List ℕ
code_of key message = 1 ∷ 255 ∷ []

abbrev early_of : Text → Bool
early_of rest = not (is_empty rest)

abbrev greeting : Text
greeting = bytes "DIALF-SHARE/1 adb\n"

abbrev token_share : ResolvedShare
token_share = record {
  profile = adb;
  bound = record { is_loopback = false; sock_port = 5939 };
  source = tcp (bytes "127.0.0.1:5037");
  exposed = all;
  token = some (bytes "dvs_x");
  expires_after = none;
  ports = 27183 ∷ [];
}

abbrev conns : List Conn
conns =
    record {
      peer = bytes "10.0.0.2";
      sent = greeting ++ bytes "AUTH 0000\n";
      nonce = bytes "00";
      late = false;
    }
    ∷ record {
      peer = bytes "10.0.0.1";
      sent = greeting ++ bytes "AUTH 01ff\n";
      nonce = bytes "00";
      late = false;
    }
    ∷ []

forwards : may_forward true (bytes "10.0.0.1") (serve_all code_of early_of token_share conns) ≡ true
unfolding may_forward serve_all bytes
forwards = refl

serve_all-Proved_example :
    Proved code_of early_of token_share (bytes "dvs_x") (bytes "10.0.0.1") conns
serve_all-Proved_example =
    serve_all-Proved code_of early_of token_share (bytes "dvs_x") conns (bytes "10.0.0.1") refl
      forwards

authenticate-IsGreeted_example :
    IsGreeted code_of
      (bytes "00")
      adb
      (bytes "dvs_x")
      early_of
      (read_line (greeting ++ bytes "AUTH 01ff\n"))
unfolding authenticate bytes
authenticate-IsGreeted_example =
    authenticate-IsGreeted code_of (bytes "00") adb (bytes "dvs_x") early_of
      (greeting ++ bytes "AUTH 01ff\n") refl
