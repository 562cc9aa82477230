-- ===== src/Jobs/Phone/Examples.antt =====
-- phone.rs on a phone that answers after half a second, with an engine that does nothing.
use dial_f.Prelude.{
  ℕ, ◌+◌, ◌≡◌, refl, false, ◌&&◌, none, some, List, [], ◌∷◌, exists, if◌then◌else◌, ltb, arith,
}
use dial_f.Prelude.Outcome.{ok}
use dial_f.Prelude.Text.{bytes}
use dial_f.Protocol.{CallState, active, ringing, outward}
use dial_f.Audio.Turn.{timeout}
use dial_f.Share.Config.Resolved.{default_config}
use dial_f.Phones.Registry.{DeviceInfo, upsert}
use dial_f.Daemon.{DaemonState, new_state}
use dial_f.Jobs.Schema.{Step, call_dial, call_wait_answered, call_answer, call_hangup, StepKind}
use dial_f.Jobs.Runner.{run_job}
use dial_f.Jobs.Call
use dial_f.Jobs.Track.{Tasks, Engine, PhoneIo, is_active}
use dial_f.Jobs.Call.{new, call_summary, enter_call, set_world}
use dial_f.Jobs.Phone.{phone_io, wait_for_answer}
use dial_f.Jobs.Phone.Waiting.{IsForward, Waited, wait_for_answer-Waited}
use dial_f.Jobs.Phone.Watching.{watch, watch-over, is_gone, call_in}
use dial_f.Jobs.Phone.Tracking.{IsSteady, Timed}
use dial_f.Jobs.Phone.Summary.{HasLatency, run_job-IsTimed}
use dial_f.Jobs.Phone.Begun.{run_job-no_summary}

abbrev idle : DaemonState
idle = new_state (bytes "k") none [] none default_config []

abbrev pixel_in : CallState → DeviceInfo
pixel_in s = record {
  id = bytes "pixel";
  name = bytes "Pixel";
  addr = none;
  last_seen_ms = 0;
  current_call =
      some (record { call_id = bytes "1"; number = none; state = s; direction = outward });
  adb = none;
}

-- The phone rings for half a second and then is in the call.
abbrev at_time : ℕ → DaemonState → DaemonState
at_time t w = record w {
  now = t;
  registry = upsert (pixel_in (if ltb t 500 then ringing else active)) [];
}

abbrev tasks : Tasks
tasks = record { on_hub = λ w h. h; elapse = λ n w. at_time (w.now + n) w }

tasks-IsForward : IsForward tasks
tasks-IsForward n w = omega arith

abbrev engine : Engine (Unit {0})
engine = record {
  play_file = λ f b s w. (ok tt, (s, w));
  wait_for_speech = λ t b s w. (ok timeout, (s, w));
  wait_for_speech_start = λ x y z b s w. (ok false, (s, w));
  sample_rate = λ s. 48000;
  rx_len = λ s w. 0;
}

engine-IsSteady : IsSteady engine
engine-IsSteady = record {
  play_file = λ f b s w. omega arith;
  wait_for_speech = λ t b s w. omega arith;
  wait_for_speech_start = λ x y z b s w. omega arith;
}

abbrev outbound : PhoneIo (Unit {0})
outbound =
    new (bytes "pixel") none false (λ (w : DaemonState). w.job_cancel)
      (λ (w : DaemonState). w.job_force) (λ (w : DaemonState). w.job_abort) idle

wait_for_answer-Waited_example :
    Waited engine tasks
      (outbound.world.now + 2000)
      outbound
      (wait_for_answer engine tasks 2000 outbound)
unfolding new
wait_for_answer-Waited_example = wait_for_answer-Waited engine tasks tasks-IsForward 2000 outbound

watch-over_example :
    (Call.call_ended (set_world idle (watch (at_time 600 idle ∷ []) (enter_call outbound)))).0 ≡ (
      is_gone (call_in (enter_call outbound) idle)
      && exists (λ w. is_active (call_in (enter_call outbound) w)) (at_time 600 idle ∷ []))
unfolding new
watch-over_example = watch-over idle (at_time 600 idle ∷ []) (enter_call outbound) refl refl

abbrev plain : StepKind → Step
plain k = record { kind = k; description = none; id = none }

abbrev call_job : List Step
call_job =
    plain (call_dial (bytes "100")) ∷ plain (call_wait_answered 2000) ∷ plain call_hangup ∷ []

run_job-IsTimed_example :
    let io = (run_job (phone_io engine tasks) call_job outbound).1 in
    Timed io × HasLatency io (call_summary io)
run_job-IsTimed_example =
    run_job-IsTimed engine tasks tasks-IsForward engine-IsSteady (bytes "pixel") none false
      (λ (w : DaemonState). w.job_cancel) (λ (w : DaemonState). w.job_force)
      (λ (w : DaemonState). w.job_abort) idle call_job

run_job-no_summary_example :
    call_summary (run_job (phone_io engine tasks) (plain call_answer ∷ []) outbound).1 ≡ none
run_job-no_summary_example =
    run_job-no_summary engine tasks (bytes "pixel") none (λ (w : DaemonState). w.job_cancel)
      (λ (w : DaemonState). w.job_force) (λ (w : DaemonState). w.job_abort) idle
      (plain call_answer ∷ []) (tt, tt)
