-- ===== src/Jobs/Track.antt =====
-- phone.rs: what a job keeps of its call, and what the daemon, the engine and the phone are to it.
-- An `Arc<AtomicBool>` is the function that reads it off the state; an Instant is in milliseconds.
use dial_f.Prelude.{ℕ, ◌-◌, Bool, true, false, Option, none, some, ◌++◌, if◌then◌else◌}
use dial_f.Prelude.Outcome.{Result, ok, err}
use dial_f.Prelude.Text.{Text, bytes, contains}
use dial_f.Audio.Turn.{TurnConfig, EndReason}
use dial_f.Protocol.{CallState, active}
use dial_f.Phones.Hub.{Hub}
use dial_f.Phones.Hub.Sending.{
  CommandError, not_connected, channel_closed, phone_reported, timed_out, ack_dropped,
}
use dial_f.Phones.Registry.{Registry, get}
use dial_f.Daemon.{DaemonState}

-- CallEnd
pub data CallEnd : Type 0 where
  completed far_end_hangup no_answer : CallEnd

pub record CallTrack : Type 0 where
  pub began : Option ℕ
  pub answered : Option ℕ
  pub ended : Option ℕ
  pub remote_number : Option Text
  pub sim : Option Text
  pub end_reason : Option CallEnd

pub record CallSummary : Type 0 where
  pub answer_latency_ms : Option ℕ
  pub duration_ms : Option ℕ
  pub call_end : CallEnd
  pub remote_number : Option Text
  pub sim : Option Text

pub data IoError : Type 0 where
  command_failed : CommandError → IoError
  engine_failed : Text → IoError
  cancelled_waiting ended_unanswered out_of_fuel : IoError
  unanswered : (timeout_ms : ℕ) → IoError

-- What the other tasks do to the hub while a command waits, and to the whole state in some
-- milliseconds.
pub record Tasks : Type 0 where
  pub on_hub : DaemonState → Hub → Hub
  pub elapse : ℕ → DaemonState → DaemonState

-- The audio engine, with the recording of the job if there is one.
pub record Engine (Session : Type 0) : Type 0 where
  pub play_file :
      Text
      → (DaemonState → Bool)
      → Option Session
      → DaemonState
      → Result Text (Unit {0}) × (Option Session × DaemonState)
  pub wait_for_speech :
      TurnConfig
      → (DaemonState → Bool)
      → Option Session
      → DaemonState
      → Result Text EndReason × (Option Session × DaemonState)
  pub wait_for_speech_start :
      ℕ
      → ℕ
      → ℕ
      → (DaemonState → Bool)
      → Option Session
      → DaemonState
      → Result Text Bool × (Option Session × DaemonState)
  pub sample_rate : Session → ℕ
  pub rx_len : Session → DaemonState → ℕ

-- PhoneJobIo, with the state of the daemon around it.
pub record PhoneIo (Session : Type 0) : Type 0 where
  pub device_id : Text
  pub session : Option Session
  pub in_call : Bool
  pub saw_active : Bool
  pub inbound : Bool
  pub cancel : DaemonState → Bool
  pub force : DaemonState → Bool
  pub abort : DaemonState → Bool
  pub started : ℕ
  pub call : CallTrack
  pub world : DaemonState

-- `o.get_or_insert_with(Instant::now)`
unfoldable pub first_time : Option ℕ → ℕ → Option ℕ
first_time none now = some now
first_time (some t) now = some t

-- The state of the device's call, if it has one.
unfoldable pub call_of : Text → Registry → Option CallState
call_of device_id r = elim (get device_id r) [
  | none ↦ none
  | some d ↦ elim d.current_call [ none ↦ none | some c ↦ some c.state ]
]

-- call_ended_decision: whether the call has ended, and `saw_active` afterwards.
unfoldable pub call_ended_decision : Bool → Bool → Option CallState → Bool × Bool
call_ended_decision false saw state = (false, saw)
call_ended_decision true saw (some active) = (false, true)
call_ended_decision true true none = (true, true)
call_ended_decision true saw state = (false, saw)

-- How long a call that began at `b` was not answered; nothing for a call that came in.
unfoldable pub latency : Bool → Option ℕ → ℕ → Option ℕ
latency true answered b = none
latency false none b = none
latency false (some a) b = some (a - b)

abbrev pub is_active : Option CallState → Bool
is_active (some active) = true
is_active _ = false

-- What a failed command says.
unfoldable pub show_error : CommandError → Text
show_error (not_connected device) = bytes "device `" ++ (device ++ bytes "` not connected")
show_error (channel_closed kind device detail) =
    bytes "`"
    ++ (kind ++ (bytes "` to `" ++ (device ++ bytes "`: send channel closed (phone disconnected)")))
show_error (phone_reported kind device detail) =
    bytes "`" ++ (kind ++ (bytes "` to `" ++ (device ++ (bytes "`: phone reported: " ++ detail))))
show_error (timed_out kind device detail) =
    bytes "`"
    ++ (kind
        ++ (bytes "` to `"
            ++ (device
                ++ bytes
                    "` timed out (no ack within 10s — phone may be asleep or its connection stale)")))
show_error (ack_dropped kind device detail) =
    bytes "`" ++ (kind ++ (bytes "` to `" ++ (device ++ bytes "`: ack channel dropped")))

-- What `hangup` makes of an error: a call that is gone already is hung up.
unfoldable pub gone_already : Result IoError (Unit {0}) → Result IoError (Unit {0})
unfolding contains show_error
gone_already (err (command_failed e)) =
    if contains (bytes "no call to hang up") (show_error e) then ok tt else err (command_failed e)
gone_already r = r

abbrev pub lifted {ℓ κ} : {A : Type ℓ} {E : Type κ} → (E → IoError) → Result E A → Result IoError A
lifted f (ok a) = ok a
lifted f (err e) = err (f e)
