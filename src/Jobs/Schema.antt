-- ===== src/Jobs/Schema.antt =====
-- jobs/schema.rs: what a step is.
use dial_f.Prelude.{ℕ, Option, List, [], ◌∷◌}
use dial_f.Prelude.Text.{Text, bytes}

pub data StepKind : Type 0 where
  audio_play : (file : Text) → StepKind
  audio_wait_for_speech : (end_timeout_ms silence_duration_ms onset_duration_ms : ℕ) → StepKind
  audio_wait_for_speech_start : (timeout_ms wait_after_start_ms onset_duration_ms : ℕ) → StepKind
  call_dial : (number : Text) → StepKind
  call_wait_answered : (timeout_ms : ℕ) → StepKind
  call_answer call_hangup : StepKind
  sms_send : (to body : Text) → StepKind
  wait : (ms : ℕ) → StepKind
  log : (message : Text) → StepKind

pub record Step : Type 0 where
  pub kind : StepKind
  pub description : Option Text
  pub id : Option Text

-- StepKind::name
unfoldable pub name : StepKind → Text
name (audio_play file) = bytes "audio.play"
name (audio_wait_for_speech e s o) = bytes "audio.wait_for_speech"
name (audio_wait_for_speech_start t w o) = bytes "audio.wait_for_speech_start"
name (call_dial number) = bytes "call.dial"
name (call_wait_answered t) = bytes "call.wait_answered"
name call_answer = bytes "call.answer"
name call_hangup = bytes "call.hangup"
name (sms_send to body) = bytes "sms.send"
name (wait ms) = bytes "wait"
name (log message) = bytes "log"

abbrev pub implemented_steps : List Text
implemented_steps =
    bytes "call.dial"
    ∷ bytes "call.wait_answered"
    ∷ bytes "call.answer"
    ∷ bytes "call.hangup"
    ∷ bytes "audio.play"
    ∷ bytes "audio.wait_for_speech"
    ∷ bytes "audio.wait_for_speech_start"
    ∷ bytes "sms.send"
    ∷ bytes "control.wait"
    ∷ bytes "control.log"
    ∷ []

abbrev pub inline_orchestrated : List Text
inline_orchestrated = bytes "sms.send" ∷ bytes "control.wait" ∷ bytes "control.log" ∷ []
