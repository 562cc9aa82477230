-- ===== src/Phones/Messages/Examples.antt =====
-- transport/phone_server.rs at concrete messages of one phone.
use dial_f.Prelude.{◌≡◌, ◌⊎◌, refl, true, false, none, some, [], ◌∷◌}
use dial_f.Prelude.Assoc.{lookup}
use dial_f.Prelude.Text.{Text, bytes, text_eq}
use dial_f.Protocol.{inward, ringing, PhoneToServer, call_state, hangup}
use dial_f.Phones.Hub.{new_hub}
use dial_f.Phones.Hub.Sending.{fire}
use dial_f.Phones.Registry.{update}
use dial_f.Share.Config.Resolved.{default_config}
use dial_f.Daemon.{DaemonState, answer_job, from_path, resolve_inbound, acquire_card, marker_name}
use dial_f.Phones.Messages.{
  handle_phone_msg, note_active, note_ringing, trigger_autoanswer, start_job,
}
use dial_f.Phones.Messages.Calls.{IsOrphan, note_active_lem}
use dial_f.Phones.Messages.Answering.{Exclusive, handle_phone_msg-Exclusive}

-- A number whose calls a served job answers, and a call that outlived a crash.
abbrev serving : DaemonState
serving = record {
  registry = [];
  hub = new_hub;
  shared_key = bytes "k";
  config_dir = none;
  config_autoanswer = [];
  config_record_dir = none;
  config_share = default_config;
  card_busy = false;
  serve_busy = false;
  job_cancel = false;
  job_force = false;
  job_abort = false;
  instances = [];
  pending_orphans = (bytes "pixel", bytes "call-1") ∷ [];
  markers = [];
  overrides = (bytes "100", record { token = 1; path = bytes "/j.yaml"; device = none }) ∷ [];
  runtime_record_dir = none;
  serve_token = 0;
  share = none;
  now = 0;
  runtime_autoanswer = none;
  events = [];
  inbox = [];
  call_log = [];
  sims = [];
  mmi_results = [];
  voicemail_results = [];
  adb_links = [];
  spawned = [];
}

abbrev rings : PhoneToServer
rings = call_state (bytes "call-2") ringing (some (bytes "100")) inward

ringing_starts_job :
    (handle_phone_msg (bytes "pixel") rings 5 serving).spawned
    ≡ answer_job (bytes "pixel") (bytes "call-2") (bytes "100") (from_path (bytes "/j.yaml")) ∷ []
unfolding handle_phone_msg note_ringing resolve_inbound trigger_autoanswer start_job acquire_card
    lookup update text_eq bytes
ringing_starts_job = refl

handle_phone_msg-Exclusive_example :
    Exclusive serving (handle_phone_msg (bytes "pixel") rings 5 serving)
handle_phone_msg-Exclusive_example = handle_phone_msg-Exclusive (bytes "pixel") rings 5 serving

note_active_lem_example :
    ((IsOrphan (bytes "pixel") (bytes "call-1") serving
        × ((note_active (bytes "pixel") (bytes "call-1") serving).hub
            ≡ (fire (bytes "pixel") (hangup (some (bytes "call-1"))) serving.hub).1))
      ⊎ ((IsOrphan (bytes "pixel") (bytes "call-1") serving → ⊥)
          × ((note_active (bytes "pixel") (bytes "call-1") serving).hub ≡ serving.hub)))
    × (lookup (bytes "pixel") (note_active (bytes "pixel") (bytes "call-1") serving).pending_orphans
        ≡ none)
    × (serving.card_busy ≡ true
        → lookup
            (marker_name (bytes "pixel"))
            (note_active (bytes "pixel") (bytes "call-1") serving).markers
          ≡ some (bytes "pixel", bytes "call-1"))
    × ((m : Text)
        → serving.card_busy ≡ false
        → lookup (bytes "pixel") serving.pending_orphans ≡ some m
        → lookup
            (marker_name (bytes "pixel"))
            (note_active (bytes "pixel") (bytes "call-1") serving).markers
          ≡ none)
    × (serving.card_busy ≡ false
        → lookup (bytes "pixel") serving.pending_orphans ≡ none
        → (note_active (bytes "pixel") (bytes "call-1") serving).markers ≡ serving.markers)
note_active_lem_example = note_active_lem (bytes "pixel") (bytes "call-1") serving
