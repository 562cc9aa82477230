-- ===== src/Share/Config/Examples.antt =====
-- share/mod.rs at concrete settings.
use dial_f.Prelude.{◌≡◌, refl, true, false, Option, none, some, [], ◌∷◌}
use dial_f.Prelude.Outcome.{err}
use dial_f.Prelude.Text.{Text, bytes}
use dial_f.Share.Adb.{all}
use dial_f.Share.Config.{tcp, range, port, own_port}
use dial_f.Share.Config.Resolved.{adb, pos, SockAddr, ShareConfig, ResolvedShare, resolve}
use dial_f.Share.Config.Resolved.Safe.{IsSafe, resolve-IsSafe}

abbrev everywhere : Text → Option SockAddr
everywhere s = some (record { is_loopback = false; sock_port = 5939 })

abbrev config : ShareConfig
config = record {
  enabled = false;
  bind = none;
  upstream = none;
  targets = [];
  all_devices = true;
  expire_after = pos 60;
  forward_ports = range (bytes "27184") ∷ range (bytes "27183-27184") ∷ [];
  autoconnect = false;
  adb_binary = none;
}

abbrev share : ResolvedShare
share = record {
  profile = adb;
  bound = record { is_loopback = false; sock_port = 5939 };
  source = tcp (bytes "127.0.0.1:5037");
  exposed = all;
  token = some (bytes "dvs_x");
  expires_after = some 60;
  ports = 27183 ∷ 27184 ∷ [];
}

resolve-IsSafe_example : IsSafe config true share
unfolding resolve bytes
resolve-IsSafe_example = resolve-IsSafe everywhere (bytes "dvs_x") config adb true share refl

-- A share refuses to forward the port it listens on.
own_port_refused :
    resolve everywhere [] (record config { forward_ports = port 5939 ∷ [] }) adb false
    ≡ err own_port
unfolding resolve bytes
own_port_refused = refl
