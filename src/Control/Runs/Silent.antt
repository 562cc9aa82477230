-- ===== src/Control/Runs/Silent.antt =====
-- phone.rs: a job whose steps neither call nor text leaves the hub alone.
use dial_f.Prelude.{
  ℕ, zero, suc, ◌+◌, Bool, true, false, ◌||◌, ◌≡◌, refl, sym, ap, Option, none, some, List, [], ◌∷◌,
  exists, All, Bool-cases, inl, inr, leb,
}
use dial_f.Prelude.Outcome.{Result, ok, passed, ok-injective}
use dial_f.Prelude.Text.{Text}
use dial_f.Audio.Turn.{TurnConfig}
use dial_f.Jobs.Schema.{
  Step, StepKind, audio_play, audio_wait_for_speech, audio_wait_for_speech_start, call_dial,
  call_wait_answered, call_answer, call_hangup, sms_send, wait, log,
}
use dial_f.Jobs.Runner.{run_step}
use dial_f.Jobs.Runner.Clock.{summarised-state}
use dial_f.Jobs.Runner.Kept.{IsKept}
use dial_f.Jobs.Call
use dial_f.Jobs.Track.{Tasks, Engine, PhoneIo, CallEnd}
use dial_f.Jobs.Call.{new, mark_active, close_call, note_over, see, set_world, by_engine}
use dial_f.Jobs.Phone.{phone_io, sleep_rounds, do_sleep}
use dial_f.Phones.Hub.{Hub}
use dial_f.Daemon.{DaemonState}
use dial_f.Control.{Files}
use dial_f.Control.Validation.{transpose, validate_record_dir}
use dial_f.Control.Requests.{
  Admitted, needs_phone, job_needs_phone, job_source, job_device, check_run,
}
use dial_f.Control.Runs.{Recorder}

-- Neither the passing of time nor the engine nor a recording takes `P` from the hub.
pub record IsQuiet {Session Recording : Type 0} (recorder : Recorder Session Recording)
    (engine : Engine Session) (tasks : Tasks) (P : Hub → Type 0) : Type 0 where
  pub elapse : (n : ℕ) (w : DaemonState) → P w.hub → P (tasks.elapse n w).hub
  pub play_file :
      (f : Text) (b : DaemonState → Bool) (s : Option Session) (w : DaemonState)
      → P w.hub
      → P (engine.play_file f b s w).1.1.hub
  pub wait_for_speech :
      (t : TurnConfig) (b : DaemonState → Bool) (s : Option Session) (w : DaemonState)
      → P w.hub
      → P (engine.wait_for_speech t b s w).1.1.hub
  pub wait_for_speech_start :
      (x y z : ℕ) (b : DaemonState → Bool) (s : Option Session) (w : DaemonState)
      → P w.hub
      → P (engine.wait_for_speech_start x y z b s w).1.1.hub
  pub start_duplex :
      (d n : Text) (w : DaemonState) → P w.hub → P (recorder.start_duplex d n w).1.hub
  pub finish : (s : Session) (w : DaemonState) → P w.hub → P (recorder.finish s w).1.hub

true-false : ¬ (true ≡ false)
true-false h = cc

pub or-false : (a b : Bool) → (a || b) ≡ false → (a ≡ false) × (b ≡ false)
or-false true b h = absurd (true-false h)
or-false false b h = (refl, h)

pub unneeded :
    (job : List Step)
    → job_needs_phone job ≡ false
    → All (λ (s : Step). needs_phone s.kind ≡ false) job
unfolding job_needs_phone
unneeded [] h = tt
unneeded (s ∷ job) h =
    let p = or-false (needs_phone s.kind) (exists (λ (t : Step). needs_phone t.kind) job) h in
    (p.0, unneeded job p.1)

pub check_run-job :
    (files : Files) (job : List Step) (device dir : Option Text) (st : DaemonState) (a : Admitted)
    → check_run files none (some job) device dir st ≡ ok a
    → a.job ≡ job
unfolding check_run job_source
check_run-job files job device dir st a h =
    let x = passed (transpose (validate_record_dir files) dir) _ a h in
    let y = passed (job_device device job st) _ a x.2 in
    ap (λ (c : Admitted). c.job) (sym (ok-injective _ a y.2))

module _ {Session Recording : Type 0} (recorder : Recorder Session Recording)
    (engine : Engine Session) (tasks : Tasks) (P : Hub → Type 0)
    (law : IsQuiet recorder engine tasks P) where
  sleep_rounds-quiet :
      (fuel deadline : ℕ) (io : PhoneIo Session)
      → P io.world.hub
      → P (sleep_rounds engine tasks fuel deadline io).1.world.hub
  unfolding sleep_rounds
  sleep_rounds-quiet zero deadline io p = p
  sleep_rounds-quiet (suc fuel) deadline io p =
      elim (Bool-cases (leb deadline io.world.now || io.force io.world)) [
        | inl e ↦ rw (e, sleep_rounds) p
        | inr e ↦
            rw (e, sleep_rounds) (sleep_rounds-quiet fuel deadline _ (law.elapse _ io.world p))
      ]

  by_engine-quiet :
      {A : Type 0} (r : Result Text A × (Option Session × DaemonState)) (io : PhoneIo Session)
      → P r.1.1.hub
      → P (by_engine r io).1.world.hub
  unfolding by_engine
  by_engine-quiet (r, (s, w)) io p = p

  run_step-quiet :
      (k : StepKind) (io : PhoneIo Session)
      → needs_phone k ≡ false
      → P io.world.hub
      → P (run_step (phone_io engine tasks) k io).1.world.hub
  unfolding run_step needs_phone do_sleep
  run_step-quiet (audio_play f) io a p =
      rw summarised-state (by_engine-quiet _ io (law.play_file f io.force io.session io.world p))
  run_step-quiet (audio_wait_for_speech e q o) io a p =
      rw summarised-state
        (by_engine-quiet _ io (law.wait_for_speech _ io.cancel io.session io.world p))
  run_step-quiet (audio_wait_for_speech_start t w o) io a p =
      rw summarised-state
        (by_engine-quiet _ io (law.wait_for_speech_start t w o io.cancel io.session io.world p))
  run_step-quiet (call_dial n) io a p = absurd (true-false a)
  run_step-quiet (call_wait_answered t) io a p = absurd (true-false a)
  run_step-quiet call_answer io a p = absurd (true-false a)
  run_step-quiet call_hangup io a p = absurd (true-false a)
  run_step-quiet (sms_send to body) io a p = absurd (true-false a)
  run_step-quiet (wait ms) io a p = rw summarised-state (sleep_rounds-quiet (ms + 1) _ io p)
  run_step-quiet (log m) io a p = p

  mark_active-quiet :
      (b : Bool) (io : PhoneIo Session) → P io.world.hub → P (mark_active b io).world.hub
  unfolding mark_active
  mark_active-quiet false io p = p
  mark_active-quiet true io p = p

  close_call-quiet :
      (why : CallEnd) (o : Option ℕ) (io : PhoneIo Session)
      → P io.world.hub
      → P (close_call why o io).world.hub
  unfolding close_call
  close_call-quiet why (some e) io p = p
  close_call-quiet why none io p = p

  note_over-quiet :
      (b : Bool) (io : PhoneIo Session) → P io.world.hub → P (note_over b io).world.hub
  unfolding note_over
  note_over-quiet false io p = p
  note_over-quiet true io p = close_call-quiet _ io.call.ended io p

  call_ended-quiet : (io : PhoneIo Session) → P io.world.hub → P (Call.call_ended io).1.world.hub
  unfolding Call.call_ended
  call_ended-quiet io p = note_over-quiet _ (see _ (mark_active _ io)) (mark_active-quiet _ io p)

  pub phone_io-IsKept :
      IsKept (phone_io engine tasks) (λ k. needs_phone k ≡ false) (λ io. P io.world.hub)
  phone_io-IsKept = record {
    step = run_step-quiet;
    log_line = λ m io p. p;
    call_ended = call_ended-quiet;
    cancelled = λ io p. p;
    now_ms = λ io p. p;
  }
