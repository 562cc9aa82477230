-- ===== src/Phones/Server/Examples.antt =====
-- transport/phone_server.rs at a phone that connects, and connects again.
use dial_f.Prelude.{◌≡◌, refl, true, false, none, some, [], ◌∷◌}
use dial_f.Prelude.Assoc.{lookup}
use dial_f.Prelude.Text.{Text, bytes, text_eq, text_eq_refl}
use dial_f.Protocol.{PhoneToServer, hello}
use dial_f.Phones.Hub.{Hub, new_hub, unregister}
use dial_f.Phones.Registry.{get}
use dial_f.Share.Config.Resolved.{default_config}
use dial_f.Daemon.{DaemonState}
use dial_f.Phones.Server.{drop_conn}
use dial_f.Phones.Server.Sockets.{late, drop_record-late}

abbrev pixel : Text
pixel = bytes "pixel"

-- One phone is connected, on connection 1.
abbrev connected_hub : Hub
connected_hub = record new_hub {
  store = record { gen = 1; queue = []; open_end = true; acks = [] } ∷ [];
  conns = (pixel, 1) ∷ [];
  conn_gen = 2;
}

abbrev running : DaemonState
running = record {
  registry = [];
  hub = connected_hub;
  shared_key = bytes "k";
  config_dir = none;
  config_autoanswer = [];
  config_record_dir = none;
  config_share = default_config;
  card_busy = false;
  serve_busy = false;
  job_cancel = false;
  job_force = false;
  job_abort = false;
  instances = (pixel, bytes "launch-1") ∷ [];
  pending_orphans = [];
  markers = [];
  overrides = [];
  runtime_record_dir = none;
  serve_token = 0;
  share = none;
  now = 0;
  runtime_autoanswer = none;
  events = [];
  inbox = [];
  call_log = [];
  sims = [];
  mmi_results = [];
  voicemail_results = [];
  adb_links = [];
  spawned = [];
}

abbrev greets : PhoneToServer
greets = hello pixel (bytes "Pixel") (bytes "k") [] none (bytes "launch-1")

current_is_1 : lookup pixel running.hub.conns ≡ some 1
unfolding lookup text_eq bytes
current_is_1 = refl

torn_down : (drop_conn pixel 1 running).0 ≡ true
unfolding drop_conn unregister lookup text_eq bytes
torn_down = refl

drop_record-late_example :
    (lookup pixel (late pixel 1 greets (bytes "10.0.0.7") 5 running).hub.conns
      ≡ some (drop_conn pixel 1 running).1.hub.conn_gen)
    × (get pixel (late pixel 1 greets (bytes "10.0.0.7") 5 running).registry ≡ none)
drop_record-late_example =
    drop_record-late pixel (bytes "Pixel") (bytes "k") [] none (bytes "launch-1") (bytes "10.0.0.7")
      5 1 running (text_eq_refl (bytes "k")) torn_down
