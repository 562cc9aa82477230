-- ===== src/Audio/Turn.antt =====
-- audio/vad.rs: the turn detector. A hop of `hop_size` samples at 16 kHz lasts hop_size / 16 ms; the
-- source computes that in f64, exactly for the two hop sizes of ten-vad (160 and 256).
pub mod Fed
pub mod Ending
pub mod Hearing
mod Examples
use dial_f.Prelude.{
  ℕ, ◌+◌, ◌-◌, ◌*◌, ◌/◌, Bool, true, false, Option, none, some, leb, ◌==◌, if◌then◌else◌, max,
}

abbrev pub vad_sample_rate : ℕ
vad_sample_rate = 16000

-- The threshold is in thousandths.
pub record TurnConfig : Type 0 where
  pub hop_size : ℕ
  pub silence_duration_ms : ℕ
  pub end_timeout_ms : ℕ
  pub onset_duration_ms : ℕ
  pub threshold : ℕ

abbrev pub default_turn : TurnConfig
default_turn = record {
  hop_size = 256;
  silence_duration_ms = 3000;
  end_timeout_ms = 45000;
  onset_duration_ms = 100;
  threshold = 500;
}

pub data EndReason : Type 0 where
  silence timeout end_of_stream : EndReason

pub data TurnEvent : Type 0 where
  speech_started : TurnEvent
  ended : EndReason → TurnEvent

pub record TurnDetector : Type 0 where
  pub hop_size : ℕ
  pub silence_hops_needed : ℕ
  pub timeout_hops : ℕ
  pub onset_hops_needed : ℕ
  pub started : Bool
  pub voiced_run : ℕ
  pub silence_run : ℕ
  pub elapsed_hops : ℕ
  pub finished : Bool

abbrev pub usize_max : ℕ
usize_max = 18446744073709551615

-- ⌈ms / hop_ms⌉ with hop_ms = hop_size * 1000 / 16000.
unfoldable pub ms_to_hops : ℕ → ℕ → ℕ
ms_to_hops ms hop_size =
    if hop_size == 0
    then usize_max
    else (ms * vad_sample_rate + hop_size * 1000 - 1) / (hop_size * 1000)

-- TurnDetector::new
unfoldable pub new : TurnConfig → TurnDetector
unfolding ms_to_hops
new cfg = record {
  hop_size = cfg.hop_size;
  silence_hops_needed = ms_to_hops cfg.silence_duration_ms cfg.hop_size;
  timeout_hops = ms_to_hops cfg.end_timeout_ms cfg.hop_size;
  onset_hops_needed = max (ms_to_hops cfg.onset_duration_ms cfg.hop_size) 1;
  started = false;
  voiced_run = 0;
  silence_run = 0;
  elapsed_hops = 0;
  finished = false;
}

-- The overall cap.
check_timeout : TurnDetector → Option TurnEvent × TurnDetector
check_timeout d =
    if leb d.timeout_hops d.elapsed_hops
    then (some (ended timeout), record d { finished = true })
    else (none, d)

-- Before onset: a voiced run counts up, and one unvoiced hop resets it.
push_waiting : TurnDetector → Bool → Option TurnEvent × TurnDetector
unfolding check_timeout
push_waiting d true =
    if leb d.onset_hops_needed (d.voiced_run + 1)
    then (some speech_started, record d { voiced_run = d.voiced_run + 1; started = true })
    else check_timeout (record d { voiced_run = d.voiced_run + 1 })
push_waiting d false = check_timeout (record d { voiced_run = 0 })

-- After onset: continuous silence ends the turn.
push_speaking : TurnDetector → Bool → Option TurnEvent × TurnDetector
unfolding check_timeout
push_speaking d true = check_timeout (record d { silence_run = 0 })
push_speaking d false =
    if leb d.silence_hops_needed (d.silence_run + 1)
    then (some (ended silence), record d { silence_run = d.silence_run + 1; finished = true })
    else check_timeout (record d { silence_run = d.silence_run + 1 })

-- TurnDetector::push
unfoldable pub push : TurnDetector → Bool → Option TurnEvent × TurnDetector
unfolding push_waiting push_speaking
push d voiced =
    if d.finished
    then (none, d)
    else (let d' = record d { elapsed_hops = d.elapsed_hops + 1 } in
        if d.started then push_speaking d' voiced else push_waiting d' voiced)

-- TurnDetector::finish
unfoldable pub finish : TurnDetector → Option TurnEvent × TurnDetector
finish d =
    if d.finished then (none, d) else (some (ended end_of_stream), record d { finished = true })
