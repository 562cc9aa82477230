-- ===== src/Control/Sample.antt =====
-- A daemon to run requests on: a phone that is connected, an adb server that lists it, and an engine, a
-- recorder and other tasks that do nothing but let the time pass.
use dial_f.Prelude.{◌+◌, true, false, none, some, List, [], ◌∷◌}
use dial_f.Prelude.Outcome.{ok}
use dial_f.Prelude.Text.{bytes}
use dial_f.Audio.Turn.{timeout}
use dial_f.Jobs.Schema.{Step, StepKind, audio_play, wait}
use dial_f.Share.Config.Resolved.{default_config}
use dial_f.Phones.Registry.{DeviceInfo}
use dial_f.Daemon.{DaemonState, new_state}
use dial_f.Jobs.Track.{Tasks, Engine}
use dial_f.Control.{Files}
use dial_f.Control.Runs.{Recorder}
use dial_f.Control.Shares.{Network}

abbrev pub idle : DaemonState
idle =
    new_state (bytes "k") (some (bytes "/etc/dialf")) ((bytes "100", none) ∷ []) none default_config
      []

abbrev pub pixel : DeviceInfo
pixel = record {
  id = bytes "pixel";
  name = bytes "Pixel";
  addr = none;
  last_seen_ms = 0;
  current_call = none;
  adb = none;
}

abbrev pub with_pixel : DaemonState
with_pixel = record idle { registry = (bytes "pixel", pixel) ∷ [] }

abbrev pub plain : StepKind → Step
plain k = record { kind = k; description = none; id = none }

abbrev pub sounds : List Step
sounds = plain (audio_play (bytes "/a.wav")) ∷ plain (wait 100) ∷ []

-- Every directory can be made, and every file holds a job that plays a sound.
abbrev pub files : Files
files = record {
  create_dir = λ d. true;
  read_file = λ f. some (bytes "job");
  parse_job = λ t. some sounds;
}

abbrev pub tasks : Tasks
tasks = record { on_hub = λ w h. h; elapse = λ n w. record w { now = w.now + n } }

abbrev pub engine : Engine (Unit {0})
engine = record {
  play_file = λ f b s w. (ok tt, (s, w));
  wait_for_speech = λ t b s w. (ok timeout, (s, w));
  wait_for_speech_start = λ x y z b s w. (ok false, (s, w));
  sample_rate = λ s. 48000;
  rx_len = λ s w. 0;
}

abbrev pub recorder : Recorder (Unit {0}) (Unit {0})
recorder = record {
  start_duplex = λ d n w. (ok tt, w);
  finish = λ s w. (ok tt, w);
  epoch_ms = λ w. w.now;
}

abbrev pub network : Network
network = record {
  parse_addr = λ t. some (record { is_loopback = false; sock_port = 5939 });
  new_token = bytes "secret";
  list_devices =
      λ u. some (record { serial = bytes "emulator"; state = bytes "device"; model = none } ∷ []);
  reachable = λ u. true;
  listen = λ config w. ok config.bound;
}
