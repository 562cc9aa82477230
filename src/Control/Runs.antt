-- ===== src/Control/Runs.antt =====
-- daemon.rs: running a job on the sound card, for a `job.run` request, and cancelling it.
pub mod Silent
pub mod Quiet
pub mod Fresh
use dial_f.Prelude.{ℕ, Bool, true, false, ◌||◌, Option, none, some, List}
use dial_f.Prelude.Outcome.{Result, ok, err}
use dial_f.Prelude.Text.{Text}
use dial_f.Jobs.Schema.{Step}
use dial_f.Jobs.Runner.{StepOutcome, run_job}
use dial_f.Jobs.Track.{CallSummary, IoError, Tasks, Engine, PhoneIo}
use dial_f.Jobs.Call.{new, call_summary}
use dial_f.Jobs.Phone.{phone_io}
use dial_f.Daemon.{DaemonState, resolve_under, acquire_card, release_card}
use dial_f.Daemon.Labels.{session_name}
use dial_f.Control.{
  ControlError, phone_busy, recording_failed, by_job, Payload, job_data, cancelled_data,
  JobRunOutput, Handler, ◌>>=◌, ◌>>◌, pure, modify, Files,
}
use dial_f.Control.Requests.{Admitted, check_run}

unfoldable pub effective_record_dir : DaemonState → Option Text
unfolding resolve_under
effective_record_dir st = elim st.runtime_record_dir [
  | some dir ↦ some dir
  | none ↦ elim st.config_record_dir [ none ↦ none | some d ↦ some (resolve_under st.config_dir d) ]
]

-- What `job.run` needs beyond `Files`: the recordings and the calendar clock.
pub record Recorder (Session Recording : Type 0) : Type 0 where
  pub start_duplex : (dir name : Text) → DaemonState → Result Text Session × DaemonState
  pub finish : Session → DaemonState → Result Text Recording × DaemonState
  pub epoch_ms : DaemonState → ℕ

-- The first of two values that is there.
abbrev pub or_else {ℓ} : {A : Type ℓ} → Option A → Option A → Option A
or_else none o = o
or_else (some a) o = some a

-- No flag of an earlier job stops the one that starts.
unfoldable pub clear_flags : DaemonState → DaemonState
clear_flags st = record st { job_cancel = false; job_force = false; job_abort = false }

-- What a handler does with the card, when it gets it; the guard's drop follows.
unfoldable pub with_card :
    {A : Type 0} → Bool × DaemonState → Handler A → Result ControlError A × DaemonState
unfolding release_card
with_card (false, st) body = (err phone_busy, st)
with_card (true, st) body = let (r, st') = body st in (r, release_card st')

-- `job.cancel`
unfoldable pub job_cancel : {R : Type 0} → Bool → Handler (Payload R)
job_cancel force = do
  modify (λ st. record st { job_force = force || st.job_force; job_cancel = true })
  pure (cancelled_data force)

-- A failure of the recording ends the request.
unfoldable pub recorded :
    {A B : Type 0} → (A → B) → Result Text A × DaemonState → Result ControlError B × DaemonState
recorded f (ok a, st) = (ok (f a), st)
recorded f (err e, st) = (err (recording_failed e), st)

module _ {Session Recording : Type 0} (recorder : Recorder Session Recording) where
  -- The recording, and the time its first frame has.
  unfoldable pub begin_session : Option Text → Option Text → Handler (Option Session × Option ℕ)
  unfolding session_name recorded
  begin_session none label st = (ok (none, none), st)
  begin_session (some dir) label st =
      recorded (λ s. (some s, some (recorder.epoch_ms st)))
        (recorder.start_duplex dir (session_name label (recorder.epoch_ms st)) st)

  -- PhoneJobIo::finish
  unfoldable pub finish_session : Option Session → Handler (Option Recording)
  unfolding recorded
  finish_session none st = (ok none, st)
  finish_session (some session) st = recorded some (recorder.finish session st)

  -- What is reported, once the recording is finished.
  unfoldable pub report :
      Result IoError (List StepOutcome)
      → Option CallSummary
      → Option ℕ
      → Result ControlError (Option Recording) × DaemonState
      → Result ControlError (JobRunOutput Recording) × DaemonState
  report run call t0 (err e, st) = (err e, st)
  report (err e) call t0 (ok recording, st) = (err (by_job e), st)
  report (ok outcomes) call t0 (ok recording, st) = (
    ok (record { outcomes = outcomes; recording = recording; call = call; t0_epoch_ms = t0 }),
    st,
  )

  -- The recording is finished, and only then is an error of the job reported.
  unfoldable pub settle_run :
      Option ℕ
      → Result IoError (List StepOutcome) × PhoneIo Session
      → Result ControlError (JobRunOutput Recording) × DaemonState
  unfolding finish_session report
  settle_run t0 (run, io) = report run (call_summary io) t0 (finish_session io.session io.world)

  module _ (engine : Engine Session) (tasks : Tasks) where
    unfoldable pub run_started :
        (device_id : Text) (job : List Step) (inbound : Bool)
        (cancel force abort : DaemonState → Bool)
        → Result ControlError (Option Session × Option ℕ) × DaemonState
        → Result ControlError (JobRunOutput Recording) × DaemonState
    unfolding settle_run
    run_started device_id job inbound cancel force abort (err e, st) = (err e, st)
    run_started device_id job inbound cancel force abort (ok s, st) =
        settle_run s.1
          (run_job (phone_io engine tasks) job (new device_id s.0 inbound cancel force abort st))

    unfoldable pub run_job_on_device :
        (device_id : Text) (job : List Step) (inbound : Bool)
        (cancel force abort : DaemonState → Bool) (label record_dir : Option Text)
        → Handler (JobRunOutput Recording)
    unfolding effective_record_dir begin_session run_started
    run_job_on_device device_id job inbound cancel force abort label record_dir st =
        run_started device_id job inbound cancel force abort
          (begin_session (or_else record_dir (effective_record_dir st)) label st)

    unfoldable pub run_held :
        (device_id : Text) (job : List Step) (name record_dir : Option Text)
        → Handler (JobRunOutput Recording)
    unfolding run_job_on_device clear_flags
    run_held device_id job name record_dir st =
        run_job_on_device device_id job false (λ (w : DaemonState). w.job_cancel)
          (λ (w : DaemonState). w.job_force) (λ (w : DaemonState). w.job_abort) name record_dir
          (clear_flags st)

    unfoldable pub run_admitted :
        Option Text → Result ControlError Admitted → Handler (Payload Recording)
    unfolding acquire_card with_card run_held
    run_admitted name (err e) st = (err e, st)
    run_admitted name (ok a) st =
        ((λ u. with_card (acquire_card u) (run_held a.device_id a.job name a.dir)) >>= λ out.
        pure (job_data out))
          st

    -- `job.run`
    unfoldable pub job_run :
        Files
        → (path : Option Text) → (steps : Option (List Step))
        → (device name record_dir : Option Text) → Handler (Payload Recording)
    unfolding check_run run_admitted
    job_run files path steps device name record_dir st =
        run_admitted name (check_run files path steps device record_dir st) st
