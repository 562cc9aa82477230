-- ===== src/Daemon.antt =====
-- daemon.rs: the state that the tasks of dialfd share, as far as the phones' messages touch it.
pub mod Inbox
pub mod Labels
mod Examples
use dial_f.Prelude.{
  ℕ, ◌+◌, ◌-◌, Bool, true, false, not, ◌&&◌, ◌||◌, Option, none, some, List, [], ◌∷◌, ◌++◌,
  if◌then◌else◌, ltb, leb, ◌==◌, keep, drop, length, is_empty,
}
use dial_f.Prelude.Assoc.{lookup, erase, insert}
use dial_f.Prelude.Text.{Text, bytes, text_eq}
use dial_f.Protocol.{SmsRecord, CallRecord, SimInfo, MmiResult, VoicemailResult}
use dial_f.Jobs.Schema.{Step}
use dial_f.AdbLink.{Link}
use dial_f.Share.Config.Resolved.{ShareConfig}
use dial_f.Share.Listener.{ShareHandle}
use dial_f.AdbLink.Checks.{join_path}
use dial_f.Phones.Hub.{Hub, new_hub}
use dial_f.Phones.Registry.{Registry}

pub record AutoanswerOverride : Type 0 where
  pub token : ℕ
  pub path : Text
  pub device : Option Text

pub data InboundJob : Type 0 where
  answer_only : InboundJob
  job_path : Text → InboundJob
  job_steps : List Step → InboundJob

pub data InboundHandler : Type 0 where
  only_answer : InboundHandler
  run_file : (path : Text) → (device : Option Text) → InboundHandler
  run_steps : List Step → InboundHandler

-- Where the steps of an auto-answer job come from.
pub data Source : Type 0 where
  from_path : Text → Source
  from_steps : List Step → Source

-- The tasks that the handlers spawn.
pub data Spawned : Type 0 where
  adb_check :
      (device_id ep : Text)
      → (serials : List Text) → (previous : Option Text) → (may_connect : Bool) → Spawned
  answer_job : (device_id call_id number : Text) → Source → Spawned

-- DaemonState. `markers` are the call marker files, by the name that `call_marker_file` gives them;
-- `events` holds the event lines without their time, and `now` is the monotonic clock in milliseconds.
pub record DaemonState : Type 0 where
  pub registry : Registry
  pub hub : Hub
  pub shared_key : Text
  pub config_dir : Option Text
  pub config_autoanswer : List (Text × Option Text)
  pub config_record_dir : Option Text
  pub config_share : ShareConfig
  pub card_busy : Bool
  pub serve_busy : Bool
  pub job_cancel : Bool
  pub job_force : Bool
  pub job_abort : Bool
  pub instances : List (Text × Text)
  pub pending_orphans : List (Text × Text)
  pub markers : List (Text × (Text × Text))
  pub overrides : List (Text × AutoanswerOverride)
  pub runtime_record_dir : Option Text
  pub runtime_autoanswer : Option (List (Text × InboundJob))
  pub serve_token : ℕ
  pub events : List Text
  pub inbox : List (Text × List SmsRecord)
  pub call_log : List (Text × List CallRecord)
  pub sims : List (Text × List SimInfo)
  pub mmi_results : List (Text × MmiResult)
  pub voicemail_results : List (Text × VoicemailResult)
  pub share : Option ShareHandle
  pub adb_links : List (Text × Link)
  pub spawned : List Spawned
  pub now : ℕ

-- DaemonState::emit
abbrev pub emit : Text → DaemonState → DaemonState
emit line st = record st { events = st.events ++ (line ∷ []) }

-- DaemonState::register_override
abbrev pub register_override : Text → AutoanswerOverride → DaemonState → DaemonState
register_override number ov st = record st { overrides = insert number ov st.overrides }

-- DaemonState::clear_overrides
unfoldable pub clear_overrides : ℕ → DaemonState → DaemonState
clear_overrides token st = record st {
  overrides = keep (λ e. not (e.1.token == token)) st.overrides;
}

unfoldable pub is_absolute : Text → Bool
is_absolute [] = false
is_absolute (c ∷ s) = c == 47

-- The pieces of a path between its separators.
pieces : Text → List Text
pieces [] = [] ∷ []
pieces (c ∷ s) = elim (pieces s) [
  | [] ↦ (c ∷ []) ∷ []
  | p ∷ ps ↦ if c == 47 then [] ∷ p ∷ ps else (c ∷ p) ∷ ps
]

join_pieces : List Text → Text
join_pieces [] = []
join_pieces (p ∷ []) = p
join_pieces (p ∷ q ∷ ps) = p ++ (47 ∷ join_pieces (q ∷ ps))

-- `path.components().collect()`
clean : Text → Text
unfolding is_absolute pieces join_pieces text_eq
clean path =
    let ps = keep (λ p. not (is_empty p) && not (text_eq p (bytes "."))) (pieces path) in
    if is_absolute path then 47 ∷ join_pieces ps else elim (pieces path) [
      | [] ↦ []
      | p ∷ qs ↦ if text_eq p (bytes ".") then join_pieces (bytes "." ∷ ps) else join_pieces ps
    ]

-- resolve_path_under
unfoldable pub resolve_under : Option Text → Text → Text
unfolding clean join_path is_absolute
resolve_under none path = clean path
resolve_under (some base) path =
    if not (is_empty base) && not (is_absolute path)
    then clean (join_path base path)
    else clean path

-- DaemonState::resolve_inbound
unfoldable pub resolve_inbound : Text → DaemonState → Option InboundHandler
unfolding lookup resolve_under
resolve_inbound number st = elim (lookup number st.overrides) [
  | some ov ↦ some (run_file ov.path ov.device)
  | none ↦ elim st.runtime_autoanswer [
    | some jobs ↦ elim (lookup number jobs) [
      | none ↦ none
      | some answer_only ↦ some only_answer
      | some (job_path p) ↦ some (run_file p none)
      | some (job_steps s) ↦ some (run_steps s)
    ]
    | none ↦ elim (lookup number st.config_autoanswer) [
      | none ↦ none
      | some none ↦ some only_answer
      | some (some path) ↦ some (run_file (resolve_under st.config_dir path) none)
    ]
  ]
]

-- DaemonState::acquire_card, and the drop of the guard it returns
unfoldable pub acquire_card : DaemonState → Bool × DaemonState
acquire_card st = if st.card_busy then (false, st) else (true, record st { card_busy = true })

unfoldable pub release_card : DaemonState → DaemonState
release_card st = record st { card_busy = false }

abbrev pub inbox_cap : ℕ
inbox_cap = 200

-- The newest messages, `inbox_cap` at most.
unfoldable pub capped : List SmsRecord → List SmsRecord
capped v = if ltb inbox_cap (length v) then drop (length v - inbox_cap) v else v

abbrev pub inbox_of : Text → DaemonState → List SmsRecord
inbox_of device_id st = elim (lookup device_id st.inbox) [ none ↦ [] | some v ↦ v ]

-- DaemonState::record_sms
unfoldable pub record_sms : Text → SmsRecord → DaemonState → DaemonState
unfolding insert capped
record_sms device_id rec st = record st {
  inbox = insert device_id (capped (inbox_of device_id st ++ (rec ∷ []))) st.inbox;
}

-- What stands for a character of a device id, given its first byte.
abbrev pub safe_char : ℕ → ℕ
safe_char c =
    if (leb 48 c && leb c 57)
      || ((leb 65 c && leb c 90) || ((leb 97 c && leb c 122) || (c == 45 || c == 95)))
    then c
    else 95

-- The name of a device's call marker file, behind `call-`. A byte that only continues a character
-- counts with it.
unfoldable pub marker_name : Text → Text
marker_name [] = []
marker_name (c ∷ s) =
    let rest = marker_name s in if leb 128 c && ltb c 192 then rest else safe_char c ∷ rest

-- write_call_marker and remove_call_marker, on a disk that works
unfoldable pub write_call_marker : Text → Text → DaemonState → DaemonState
unfolding insert marker_name
write_call_marker device_id call_id st = record st {
  markers = insert (marker_name device_id) (device_id, call_id) st.markers;
}

unfoldable pub remove_call_marker : Text → DaemonState → DaemonState
unfolding erase marker_name
remove_call_marker device_id st = record st { markers = erase (marker_name device_id) st.markers }

-- load_call_markers: what a restarted daemon finds.
unfoldable pub load_call_markers : List (Text × (Text × Text)) → List (Text × Text)
unfolding insert
load_call_markers [] = []
load_call_markers ((n, e) ∷ ms) = insert e.0 e.1 (load_call_markers ms)

-- The state that `run` starts with, given the settings and the call markers of an earlier run.
unfoldable pub new_state :
    (shared_key : Text) (config_dir : Option Text) (autoanswer : List (Text × Option Text))
    (record_dir : Option Text) (share : ShareConfig) (markers : List (Text × (Text × Text)))
    → DaemonState
unfolding load_call_markers
new_state shared_key config_dir autoanswer record_dir share markers = record {
  registry = [];
  hub = new_hub;
  shared_key = shared_key;
  config_dir = config_dir;
  config_autoanswer = autoanswer;
  config_record_dir = record_dir;
  config_share = share;
  card_busy = false;
  serve_busy = false;
  job_cancel = false;
  job_force = false;
  job_abort = false;
  instances = [];
  pending_orphans = load_call_markers markers;
  markers = markers;
  overrides = [];
  runtime_record_dir = none;
  runtime_autoanswer = none;
  serve_token = 1;
  events = [];
  inbox = [];
  call_log = [];
  sims = [];
  mmi_results = [];
  voicemail_results = [];
  share = none;
  adb_links = [];
  spawned = [];
  now = 0;
}
