-- ===== src/Daemon/Examples.antt =====
-- daemon.rs at a text message.
use dial_f.Prelude.{◌≡◌, ◌≢◌, ◌+◌, min, false, none, some, List, [], ◌∷◌, ◌++◌, length}
use dial_f.Prelude.Text.{Text, bytes}
use dial_f.Protocol.{SmsRecord, inward}
use dial_f.Phones.Hub.{new_hub}
use dial_f.Share.Config.Resolved.{default_config}
use dial_f.Daemon.{DaemonState, inbox_cap, inbox_of, record_sms}
use dial_f.Daemon.Inbox.{record_sms-inbox_of}

abbrev hi : SmsRecord
hi = record {
  direction = inward;
  from_number = some (bytes "100");
  to_number = none;
  body = bytes "hi";
  ts = 1;
}

abbrev idle : DaemonState
idle = record {
  registry = [];
  hub = new_hub;
  shared_key = bytes "k";
  config_dir = none;
  config_autoanswer = [];
  config_record_dir = none;
  config_share = default_config;
  card_busy = false;
  serve_busy = false;
  job_cancel = false;
  job_force = false;
  job_abort = false;
  instances = [];
  pending_orphans = [];
  markers = [];
  overrides = [];
  runtime_record_dir = none;
  serve_token = 0;
  share = none;
  now = 0;
  runtime_autoanswer = none;
  events = [];
  inbox = (bytes "pixel", hi ∷ []) ∷ [];
  call_log = [];
  sims = [];
  mmi_results = [];
  voicemail_results = [];
  adb_links = [];
  spawned = [];
}

record_sms-inbox_of_example :
    (length (inbox_of (bytes "pixel") (record_sms (bytes "pixel") hi idle))
      ≡ min inbox_cap (length (inbox_of (bytes "pixel") idle) + 1))
    × ((old : List SmsRecord) × (old
            ++ inbox_of (bytes "pixel") (record_sms (bytes "pixel") hi idle)
          ≡ inbox_of (bytes "pixel") idle ++ (hi ∷ [])))
    × ((e : Text)
        → e ≢ bytes "pixel"
        → inbox_of e (record_sms (bytes "pixel") hi idle) ≡ inbox_of e idle)
record_sms-inbox_of_example = record_sms-inbox_of (bytes "pixel") hi idle
