-- ===== src/Control/AutoAnswer.antt =====
-- transport/phone_server.rs: the task that answers a call and runs the job for it.
use dial_f.Prelude.{true, false, Option, none, some, List, [], ◌∷◌, ◌++◌, if◌then◌else◌}
use dial_f.Prelude.Outcome.{Result, ok, err}
use dial_f.Prelude.Text.{Text, bytes, text_eq}
use dial_f.Protocol.{answer, hangup}
use dial_f.Jobs.Schema.{Step}
use dial_f.Jobs.Runner.{StepOutcome, call_ended_summary}
use dial_f.Jobs.Track.{Tasks, Engine}
use dial_f.Daemon.{DaemonState, Source, from_path, from_steps, emit, release_card}
use dial_f.Control.{ControlError, JobRunOutput, Files}
use dial_f.Control.Requests.{load_job_file}
use dial_f.Control.Runs.{Recorder, run_job_on_device}
use dial_f.Control.Devices.{send_command, send_fire}

-- `{n} → {what}`
unfoldable pub line_for : Text → Text → Text
line_for n what = n ++ (bytes " → " ++ what)

unfoldable pub emit_all : List Text → DaemonState → DaemonState
emit_all [] st = st
emit_all (l ∷ ls) st = emit_all ls (emit l st)

-- The outcomes behind the one that says that the call ended, when there is one.
unfoldable pub after_end : List StepOutcome → Option (List StepOutcome)
unfolding text_eq
after_end [] = none
after_end (o ∷ os) =
    let rest = after_end os in if text_eq o.summary call_ended_summary then some os else rest

unfoldable pub skipped_lines : List StepOutcome → List Text
skipped_lines [] = []
skipped_lines (o ∷ os) = (bytes "  " ++ o.summary) ∷ skipped_lines os

-- What is told of a job that ran.
unfoldable pub ending_lines : Text → Option (List StepOutcome) → List Text
unfolding line_for skipped_lines
ending_lines n none = line_for n (bytes "done") ∷ []
ending_lines n (some skipped) =
    line_for n (bytes "caller hung up")
    ∷ (skipped_lines skipped ++ (bytes "waiting for the next call" ∷ []))

-- The steps of a job.
unfoldable pub load_source : Files → Source → Result ControlError (List Step)
unfolding load_job_file
load_source files (from_steps steps) = ok steps
load_source files (from_path path) = load_job_file files path

-- The warnings of a recording, a line for each.
unfoldable pub warning_lines : Text → List Text → List Text
unfolding line_for
warning_lines n [] = []
warning_lines n (w ∷ ws) = line_for n (bytes "warning: " ++ w) ∷ warning_lines n ws

-- `describe` is the text of an error, and `warnings` what a recording is warned of.
module _ {Session Recording : Type 0} (files : Files) (recorder : Recorder Session Recording)
    (engine : Engine Session) (tasks : Tasks) (describe : ControlError → Text)
    (warnings : Recording → List Text) where
  -- A call that is answered but has no script to run is hung up.
  unfoldable pub hang_up : Text → DaemonState → DaemonState
  unfolding send_fire
  hang_up device_id st = (send_fire tasks device_id (hangup none) st).1

  -- What is told of a job, and what is done about one that failed.
  unfoldable pub tell_end :
      (device_id n : Text)
      → Result ControlError (JobRunOutput Recording) × DaemonState
      → DaemonState
  unfolding emit_all warning_lines ending_lines after_end hang_up line_for
  tell_end device_id n (ok out, st) =
      let warned : List Text = elim out.recording [
        | none ↦ []
        | some r ↦ warning_lines n (warnings r)
      ] in
      emit_all (warned ++ ending_lines n (after_end out.outcomes)) st
  tell_end device_id n (err e, st) =
      emit (bytes "waiting for the next call")
        (hang_up device_id (emit (line_for n (bytes "job error: " ++ describe e)) st))

  -- The job, which no client can cancel and a relaunch of the app ends.
  unfoldable pub run_loaded :
      (device_id n : Text) → Result ControlError (List Step) → DaemonState → DaemonState
  unfolding hang_up line_for tell_end run_job_on_device
  run_loaded device_id n (err e) st =
      hang_up device_id (emit (line_for n (bytes "job load failed: " ++ describe e)) st)
  run_loaded device_id n (ok job) st = tell_end device_id n (
      run_job_on_device recorder engine tasks device_id job true (λ (w : DaemonState). false)
        (λ (w : DaemonState). false) (λ (w : DaemonState). w.job_abort) none none
        (record st { job_abort = false }))

  unfoldable pub run_answered :
      (device_id n : Text) → Source → Result ControlError (Unit {0}) × DaemonState → DaemonState
  unfolding line_for load_source run_loaded
  run_answered device_id n source (err e, st) =
      emit (line_for n (bytes "answer failed: " ++ describe e)) st
  run_answered device_id n source (ok u, st) = run_loaded device_id n (load_source files source) st

  -- The task that `trigger_autoanswer` spawns. It holds the card, which is released at its end.
  unfoldable pub answer_task : (device_id call_id n : Text) → Source → DaemonState → DaemonState
  unfolding send_command run_answered release_card
  answer_task device_id call_id n source st =
      release_card
        (run_answered device_id n source (send_command tasks device_id (answer (some call_id)) st))
