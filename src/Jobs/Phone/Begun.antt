-- ===== src/Jobs/Phone/Begun.antt =====
-- phone.rs and jobs/runner.rs: what a job reports of a call that it did not place.
use dial_f.Prelude.{
  ℕ, zero, suc, ◌+◌, ◌≡◌, refl, ap, ◌∙◌, Bool, true, false, ◌||◌, Option, none, some, List, All,
  Bool-cases, inl, inr, leb,
}
use dial_f.Prelude.Outcome.{Result}
use dial_f.Prelude.Text.{Text}
use dial_f.Protocol.{CallState, active, dialing, ringing, call_ended}
use dial_f.Daemon.{DaemonState}
use dial_f.Jobs.Schema.{
  StepKind, Step, audio_play, audio_wait_for_speech, audio_wait_for_speech_start, call_dial,
  call_wait_answered, call_answer, call_hangup, sms_send, wait, log,
}
use dial_f.Jobs.Runner.{run_step, run_job}
use dial_f.Jobs.Runner.Clock.{summarised-state}
use dial_f.Jobs.Runner.Kept.{IsKept, run_job-Kept}
use dial_f.Jobs.Call
use dial_f.Jobs.Track.{IoError, Tasks, Engine, PhoneIo, CallEnd, completed}
use dial_f.Jobs.Call.{
  mark_active, close_call, note_over, see, set_world, by_engine, new, call_summary, summary_at,
}
use dial_f.Jobs.Phone.{
  phone_io, poll_ms, after_cmd, cmd, do_answer, do_hangup, do_send_sms, give_up, next_round, poll,
  wait_rounds, wait_for_answer, sleep_rounds, do_sleep,
}

abbrev pub IsNoDial : StepKind → Type 0
IsNoDial (call_dial n) = ⊥
IsNoDial k = Unit {0}

module _ {Session : Type 0} (x : Option ℕ) where
  abbrev Begun : PhoneIo Session → Type 0
  Begun io = io.call.began ≡ x

  mark_active-Begun : (b : Bool) (io : PhoneIo Session) → Begun io → Begun (mark_active b io)
  unfolding mark_active
  mark_active-Begun false io t = t
  mark_active-Begun true io t = t

  close_call-Begun :
      (why : CallEnd) (o : Option ℕ) (io : PhoneIo Session) → Begun io → Begun (close_call why o io)
  unfolding close_call
  close_call-Begun why (some e) io t = t
  close_call-Begun why none io t = t

  note_over-Begun : (b : Bool) (io : PhoneIo Session) → Begun io → Begun (note_over b io)
  unfolding note_over
  note_over-Begun false io t = t
  note_over-Begun true io t = close_call-Begun _ io.call.ended io t

  call_ended-Begun : (io : PhoneIo Session) → Begun io → Begun (Call.call_ended io).1
  unfolding Call.call_ended
  call_ended-Begun io t = note_over-Begun _ (see _ (mark_active _ io)) (mark_active-Begun _ io t)

  by_engine-Begun :
      {A : Type 0} (r : Result Text A × (Option Session × DaemonState)) (io : PhoneIo Session)
      → Begun io
      → Begun (by_engine r io).1
  unfolding by_engine
  by_engine-Begun (r, (s, w)) io t = t

  module _ (engine : Engine Session) (tasks : Tasks) where
    do_answer-Begun : (io : PhoneIo Session) → Begun io → Begun (do_answer engine tasks io).1
    unfolding do_answer cmd after_cmd
    do_answer-Begun io t = t

    do_hangup-Begun : (io : PhoneIo Session) → Begun io → Begun (do_hangup engine tasks io).1
    unfolding do_hangup cmd after_cmd
    do_hangup-Begun io t = close_call-Begun completed io.call.ended io t

    next_round-Begun :
        (deadline ms : ℕ) (again : PhoneIo Session → Result IoError (Unit {0}) × PhoneIo Session)
        (io : PhoneIo Session)
        → ((v : PhoneIo Session) → Begun v → Begun (again v).1)
        → Begun io
        → Begun (next_round engine tasks deadline ms again io).1
    unfolding next_round give_up
    next_round-Begun deadline ms again io next t = elim (Bool-cases (leb deadline io.world.now)) [
      | inl e ↦ rw e t
      | inr e ↦ rw e (next (set_world (tasks.elapse poll_ms io.world) io) t)
    ]

    poll-Begun :
        (deadline ms : ℕ)
        (again : Bool → PhoneIo Session → Result IoError (Unit {0}) × PhoneIo Session) (seen : Bool)
        (state : Option CallState) (io : PhoneIo Session)
        → ((b : Bool) (v : PhoneIo Session) → Begun v → Begun (again b v).1)
        → Begun io
        → Begun (poll engine tasks deadline ms again seen state io).1
    unfolding poll give_up mark_active
    poll-Begun deadline ms again seen (some active) io next t = t
    poll-Begun deadline ms again true none io next t = t
    poll-Begun deadline ms again false none io next t =
        next_round-Begun deadline ms (again false) io (next false) t
    poll-Begun deadline ms again seen (some dialing) io next t =
        next_round-Begun deadline ms (again true) io (next true) t
    poll-Begun deadline ms again seen (some ringing) io next t =
        next_round-Begun deadline ms (again true) io (next true) t
    poll-Begun deadline ms again seen (some call_ended) io next t =
        next_round-Begun deadline ms (again true) io (next true) t

    wait_rounds-Begun :
        (fuel deadline ms : ℕ) (seen : Bool) (io : PhoneIo Session)
        → Begun io
        → Begun (wait_rounds engine tasks fuel deadline ms seen io).1
    unfolding wait_rounds
    wait_rounds-Begun zero deadline ms seen io t = t
    wait_rounds-Begun (suc fuel) deadline ms seen io t = elim (Bool-cases (Call.cancelled io)) [
      | inl e ↦ rw e (do_hangup-Begun io t)
      | inr e ↦ rw e (
          poll-Begun deadline ms (wait_rounds engine tasks fuel deadline ms) seen _ io
            (wait_rounds-Begun fuel deadline ms) t)
    ]

    sleep_rounds-Begun :
        (fuel deadline : ℕ) (io : PhoneIo Session)
        → Begun io
        → Begun (sleep_rounds engine tasks fuel deadline io).1
    unfolding sleep_rounds
    sleep_rounds-Begun zero deadline io t = t
    sleep_rounds-Begun (suc fuel) deadline io t =
        elim (Bool-cases (leb deadline io.world.now || io.force io.world)) [
          | inl e ↦ rw (e, sleep_rounds) t
          | inr e ↦
              rw (e, sleep_rounds)
                (sleep_rounds-Begun fuel deadline (set_world (tasks.elapse _ io.world) io) t)
        ]

    run_step-Begun :
        (k : StepKind) (io : PhoneIo Session)
        → IsNoDial k
        → Begun io
        → Begun (run_step (phone_io engine tasks) k io).1
    unfolding run_step wait_for_answer do_send_sms do_sleep cmd after_cmd
    run_step-Begun (audio_play f) io u t = rw summarised-state (by_engine-Begun _ io t)
    run_step-Begun (audio_wait_for_speech a b c) io u t =
        rw summarised-state (by_engine-Begun _ io t)
    run_step-Begun (audio_wait_for_speech_start a b c) io u t =
        rw summarised-state (by_engine-Begun _ io t)
    run_step-Begun (call_dial n) io u t = absurd u
    run_step-Begun (call_wait_answered ms) io u t =
        rw summarised-state (wait_rounds-Begun (ms + 2) (io.world.now + ms) ms false io t)
    run_step-Begun call_answer io u t = rw summarised-state (do_answer-Begun io t)
    run_step-Begun call_hangup io u t = rw summarised-state (do_hangup-Begun io t)
    run_step-Begun (sms_send a b) io u t = rw summarised-state t
    run_step-Begun (wait ms) io u t =
        rw summarised-state (sleep_rounds-Begun (ms + 1) (io.world.now + ms) io t)
    run_step-Begun (log m) io u t = t

    Begun-IsKept : IsKept (phone_io engine tasks) IsNoDial Begun
    Begun-IsKept = record {
      step = run_step-Begun;
      log_line = λ m io t. t;
      call_ended = call_ended-Begun;
      cancelled = λ io t. t;
      now_ms = λ io t. t;
    }

    pub run_job-Begun :
        (steps : List Step) (io : PhoneIo Session)
        → All (λ (step : Step). IsNoDial step.kind) steps
        → Begun io
        → Begun (run_job (phone_io engine tasks) steps io).1
    run_job-Begun steps io a t =
        run_job-Kept (phone_io engine tasks) IsNoDial Begun Begun-IsKept steps io a t

module _ {Session : Type 0} (engine : Engine Session) (tasks : Tasks) where
  -- A job with no call.dial step that was not started for a call that came in reports no call, also
  -- when it answers one.
  pub run_job-no_summary :
      (device_id : Text) (session : Option Session) (cancel force abort : DaemonState → Bool)
      (world : DaemonState) (steps : List Step)
      → All (λ (step : Step). IsNoDial step.kind) steps
      → call_summary
          (run_job
            (phone_io engine tasks)
            steps
            (new device_id session false cancel force abort world)).1
        ≡ none
  unfolding call_summary
  run_job-no_summary device_id session cancel force abort world steps a =
      let io =
        (run_job (phone_io engine tasks) steps
          (new device_id session false cancel force abort world)).1 in
      ap (summary_at io) (
        run_job-Begun none engine tasks steps (new device_id session false cancel force abort world)
          a (unfold new in refl))
      ∙ (unfold summary_at in refl)
