-- ===== src/Jobs/Phone/Summary.antt =====
-- phone.rs and jobs/runner.rs: the summary of a job's call.
use dial_f.Prelude.{
  ℕ, ◌+◌, ◌≡◌, refl, ap, Bool, true, false, Option, none, some, List, [], ◌∷◌, All, arith,
}
use dial_f.Prelude.Text.{Text}
use dial_f.Protocol.{send_sms}
use dial_f.Daemon.{DaemonState}
use dial_f.Jobs.Schema.{
  StepKind, Step, audio_play, audio_wait_for_speech, audio_wait_for_speech_start, call_dial,
  call_wait_answered, call_answer, call_hangup, sms_send, wait, log,
}
use dial_f.Jobs.Runner.{run_step, run_job}
use dial_f.Jobs.Runner.Clock.{summarised-state}
use dial_f.Jobs.Runner.Kept.{IsKept, run_job-Kept}
use dial_f.Jobs.Track.{CallSummary, Tasks, Engine, PhoneIo, latency}
use dial_f.Jobs.Call.{new, call_summary, summary_at, summary_from}
use dial_f.Jobs.Phone.{phone_io, wait_for_answer, do_send_sms, do_sleep}
use dial_f.Jobs.Phone.Waiting.{IsForward}
use dial_f.Jobs.Phone.Tracking.{
  Before, Timed, IsSteady, by_engine-Timed, do_dial-Timed, wait_rounds-Timed, do_answer-Timed,
  do_hangup-Timed, cmd-Timed, sleep_rounds-Timed, call_ended-Timed,
}

-- The latency of a summary is the time from the beginning of the call to its answer.
abbrev pub Latency : Option ℕ → Option ℕ → Option ℕ → Type 0
Latency began answered none = Unit {0}
Latency began answered (some l) = (b : ℕ) × (began ≡ some b) × (answered ≡ some (b + l))

latency-Latency :
    (inbound : Bool) (began answered : Option ℕ) (b : ℕ)
    → began ≡ some b
    → Before began answered
    → Latency began answered (latency inbound answered b)
unfolding latency
latency-Latency true began answered b e p = tt
latency-Latency false began none b e p = tt
latency-Latency false none (some a) b e p = cc
latency-Latency false (some b') (some a) b e p =
    let q : b' ≡ b = cc in (b, e, ap (λ n. some n) (omega arith))

every_step : (steps : List Step) → All (λ step. Unit {0}) steps
every_step [] = tt
every_step (step ∷ steps) = (tt, every_step steps)

module _ {Session : Type 0} where
  -- The latency of a summary, if there is one.
  abbrev pub HasLatency : PhoneIo Session → Option CallSummary → Type 0
  HasLatency io none = Unit {0}
  HasLatency io (some s) = Latency io.call.began io.call.answered s.answer_latency_ms

  summary_at-HasLatency :
      (io : PhoneIo Session) (began : Option ℕ)
      → io.call.began ≡ began
      → Timed io
      → HasLatency io (summary_at io began)
  unfolding summary_at summary_from
  summary_at-HasLatency io none e t = tt
  summary_at-HasLatency io (some b) e t =
      latency-Latency io.inbound io.call.began io.call.answered b e t.0

  call_summary-HasLatency : (io : PhoneIo Session) → Timed io → HasLatency io (call_summary io)
  unfolding call_summary
  call_summary-HasLatency io t = summary_at-HasLatency io io.call.began refl t

module _ {Session : Type 0} (engine : Engine Session) (tasks : Tasks) (forward : IsForward tasks)
    (steady : IsSteady engine) where
  run_step-Timed :
      (k : StepKind) (io : PhoneIo Session)
      → Unit {0}
      → Timed io
      → Timed (run_step (phone_io engine tasks) k io).1
  unfolding run_step
  run_step-Timed (audio_play f) io u t =
      rw summarised-state (by_engine-Timed engine tasks forward _ io (steady.play_file f _ _ _) t)
  run_step-Timed (audio_wait_for_speech a b c) io u t =
      rw summarised-state
        (by_engine-Timed engine tasks forward _ io (steady.wait_for_speech _ _ _ _) t)
  run_step-Timed (audio_wait_for_speech_start a b c) io u t =
      rw summarised-state
        (by_engine-Timed engine tasks forward _ io (steady.wait_for_speech_start a b c _ _ _) t)
  run_step-Timed (call_dial n) io u t =
      rw summarised-state (do_dial-Timed engine tasks forward n io t)
  run_step-Timed (call_wait_answered ms) io u t = rw summarised-state (
      unfold wait_for_answer in
      wait_rounds-Timed engine tasks forward (ms + 2) (io.world.now + ms) ms false io t)
  run_step-Timed call_answer io u t =
      rw summarised-state (do_answer-Timed engine tasks forward io t)
  run_step-Timed call_hangup io u t =
      rw summarised-state (do_hangup-Timed engine tasks forward io t)
  run_step-Timed (sms_send a b) io u t =
      rw summarised-state (unfold do_send_sms in cmd-Timed engine tasks forward (send_sms a b) io t)
  run_step-Timed (wait ms) io u t =
      rw summarised-state (
        unfold do_sleep in
        sleep_rounds-Timed engine tasks forward (ms + 1) (io.world.now + ms) io t)
  run_step-Timed (log m) io u t = t

  Timed-IsKept : IsKept (phone_io engine tasks) (λ k. Unit {0}) Timed
  Timed-IsKept = record {
    step = run_step-Timed;
    log_line = λ m io t. t;
    call_ended = call_ended-Timed;
    cancelled = λ io t. t;
    now_ms = λ io t. t;
  }

  new-Timed :
      (device_id : Text) (session : Option Session) (inbound : Bool)
      (cancel force abort : DaemonState → Bool) (world : DaemonState)
      → Timed (new device_id session inbound cancel force abort world)
  unfolding new
  new-Timed device_id session true cancel force abort world = omega arith
  new-Timed device_id session false cancel force abort world = omega arith

  -- After any job on a phone, whatever the phone, the engine and the other tasks do while time goes
  -- on: its call began no later than it was answered, and no later than it ended, none of this in the
  -- future; and the latency of its summary, where it has one, leads from the beginning of the call to
  -- its answer.
  pub run_job-IsTimed :
      (device_id : Text) (session : Option Session) (inbound : Bool)
      (cancel force abort : DaemonState → Bool) (world : DaemonState) (steps : List Step)
      → let io =
          (run_job
            (phone_io engine tasks)
            steps
            (new device_id session inbound cancel force abort world)).1 in
        Timed io × HasLatency io (call_summary io)
  run_job-IsTimed device_id session inbound cancel force abort world steps =
      let io =
        (run_job (phone_io engine tasks) steps
          (new device_id session inbound cancel force abort world)).1 in
      let t =
        run_job-Kept (phone_io engine tasks) (λ k. Unit {0}) Timed Timed-IsKept steps
          (new device_id session inbound cancel force abort world) (every_step steps)
          (new-Timed device_id session inbound cancel force abort world) in
      (t, call_summary-HasLatency io t)
