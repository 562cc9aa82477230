-- ===== src/Jobs/Runner.antt =====
-- jobs/runner.rs: running a list of steps over the effects that `JobIo` offers. `S` is the state of
-- the implementation and of the world around it, `E` its errors.
pub mod Reports
pub mod Accounting
pub mod Inbound
pub mod Clock
pub mod Kept
mod Examples
use dial_f.Prelude.{
  ℕ, ◌+◌, Bool, true, false, ◌&&◌, Option, none, some, List, [], ◌∷◌, ◌++◌, length, if◌then◌else◌,
}
use dial_f.Prelude.Outcome.{Result, ok, err}
use dial_f.Prelude.Text.{Text, bytes, decimal}
use dial_f.Audio.Turn.{TurnConfig, default_turn, EndReason, silence, timeout, end_of_stream}
use dial_f.Jobs.Schema.{
  Step, StepKind, name, audio_play, audio_wait_for_speech, audio_wait_for_speech_start, call_dial,
  call_wait_answered, call_answer, call_hangup, sms_send, wait, log,
}

pub record JobIo (S E : Type 0) : Type 0 where
  pub play : Text → S → Result E (Unit {0}) × S
  pub wait_for_speech : TurnConfig → S → Result E EndReason × S
  pub wait_for_speech_start : ℕ → ℕ → ℕ → S → Result E Bool × S
  pub dial : Text → S → Result E (Unit {0}) × S
  pub wait_for_answer : ℕ → S → Result E (Unit {0}) × S
  pub answer : S → Result E (Unit {0}) × S
  pub hangup : S → Result E (Unit {0}) × S
  pub send_sms : Text → Text → S → Result E (Unit {0}) × S
  pub sleep : ℕ → S → Result E (Unit {0}) × S
  pub log_line : Text → S → S
  pub call_ended : S → Bool × S
  pub inbound_mode : S → Bool
  pub cancelled : S → Bool × S
  pub now_ms : S → ℕ × S

pub data StepEnd : Type 0 where
  completed timed_out skipped_step was_cancelled call_over : StepEnd

pub record StepOutcome : Type 0 where
  pub index : ℕ
  pub id : Option Text
  pub step_type : Text
  pub description : Option Text
  pub t_start_ms : ℕ
  pub t_end_ms : ℕ
  pub end_reason : StepEnd
  pub summary : Text

abbrev pub call_ended_summary : Text
call_ended_summary = bytes "caller hung up — remaining steps skipped"

abbrev pub cancelled_summary : Text
cancelled_summary = bytes "cancelled — remaining steps skipped"

-- StepOutcome::skipped
unfoldable pub skipped : ℕ → Step → ℕ → StepEnd → Text → StepOutcome
skipped index step at end_reason summary = record {
  index = index;
  id = step.id;
  step_type = name step.kind;
  description = step.description;
  t_start_ms = at;
  t_end_ms = at;
  end_reason = end_reason;
  summary = summary;
}

-- Every step from `index` on is reported as not run.
pub push_skipped : ℕ → ℕ → List Step → List StepOutcome
unfolding skipped
push_skipped index at [] = []
push_skipped index at (step ∷ rest) =
    skipped index step at skipped_step (name step.kind ++ bytes " skipped")
    ∷ push_skipped (index + 1) at rest

-- The outcome that says why a job stopped early.
pub marker : ℕ → ℕ → StepEnd → Text → Text → StepOutcome
marker index at end_reason description summary = record {
  index = index;
  id = none;
  step_type = bytes "control.log";
  description = some description;
  t_start_ms = at;
  t_end_ms = at;
  end_reason = end_reason;
  summary = summary;
}

-- The steps that set up a call.
pub is_call_setup : StepKind → Bool
is_call_setup (call_dial number) = true
is_call_setup (call_wait_answered timeout_ms) = true
is_call_setup call_answer = true
is_call_setup _ = false

reason_name : EndReason → Text
reason_name silence = bytes "Silence"
reason_name timeout = bytes "Timeout"
reason_name end_of_stream = bytes "EndOfStream"

speech_end : EndReason → StepEnd
speech_end timeout = timed_out
speech_end _ = completed

-- `io.f()?` followed by a summary computed from what it returned.
pub summarised {ℓ} :
    {S E : Type 0} {A : Type ℓ}
    → (A → Text × StepEnd)
    → Result E A × S
    → Result E (Text × StepEnd) × S
summarised f (err e, s) = (err e, s)
summarised f (ok a, s) = (ok (f a), s)

module _ {S E : Type 0} (io : JobIo S E) where
  unfoldable pub run_step : StepKind → S → Result E (Text × StepEnd) × S
  unfolding summarised reason_name speech_end
  run_step (audio_play file) s =
      summarised (λ _. (bytes "played " ++ file, completed)) (io.play file s)
  run_step (audio_wait_for_speech end_timeout_ms silence_duration_ms onset_duration_ms) s =
      summarised (λ reason. (bytes "turn ended: " ++ reason_name reason, speech_end reason))
        (io.wait_for_speech
          (record default_turn {
            silence_duration_ms = silence_duration_ms;
            end_timeout_ms = end_timeout_ms;
            onset_duration_ms = onset_duration_ms;
          })
          s)
  run_step (audio_wait_for_speech_start timeout_ms wait_after_start_ms onset_duration_ms) s =
      summarised
        (λ started.
          if started
          then (
            bytes "speech started, waited " ++ (decimal wait_after_start_ms ++ bytes "ms"),
            completed,
          )
          else (bytes "no speech within " ++ (decimal timeout_ms ++ bytes "ms"), timed_out))
        (io.wait_for_speech_start timeout_ms wait_after_start_ms onset_duration_ms s)
  run_step (call_dial number) s =
      summarised (λ _. (bytes "dialed " ++ number, completed)) (io.dial number s)
  run_step (call_wait_answered timeout_ms) s =
      summarised (λ _. (bytes "call answered", completed)) (io.wait_for_answer timeout_ms s)
  run_step call_answer s = summarised (λ _. (bytes "answered", completed)) (io.answer s)
  run_step call_hangup s = summarised (λ _. (bytes "hung up", completed)) (io.hangup s)
  run_step (sms_send to body) s =
      summarised
        (λ _. (
          bytes "sms -> " ++ (to ++ (bytes " (" ++ (decimal (length body) ++ bytes " chars)"))),
          completed,
        ))
        (io.send_sms to body s)
  run_step (wait ms) s =
      summarised (λ _. (bytes "waited " ++ (decimal ms ++ bytes "ms"), completed)) (io.sleep ms s)
  run_step (log message) s = (ok (bytes "log: " ++ message, completed), io.log_line message s)

  log_description : Option Text → S → S
  log_description none s = s
  log_description (some d) s = io.log_line d s

  prepend : StepOutcome → Result E (List StepOutcome) × S → Result E (List StepOutcome) × S
  prepend o (err e, s) = (err e, s)
  prepend o (ok os, s) = (ok (o ∷ os), s)

  -- The job stops after step `index`: a marker, and the remaining steps as skipped.
  stop : ℕ → List Step → StepEnd → Text → Text → S → Result E (List StepOutcome) × S
  stop index rest end_reason description summary s =
      let (at, s') = io.now_ms s in
      (
        ok (
            marker (index + 1) at end_reason description summary
            ∷ push_skipped (index + 1) at rest),
        s',
      )

  -- The tests between two steps; `again` runs the rest.
  between :
      ℕ → List Step → (S → Result E (List StepOutcome) × S) → S → Result E (List StepOutcome) × S
  unfolding stop
  between index rest again s =
      let (cancelled, s1) = io.cancelled s in
      if cancelled
      then stop index rest was_cancelled (bytes "cancelled") cancelled_summary s1
      else (let (over, s2) = io.call_ended s1 in
          if over
          then stop index rest call_over (bytes "call ended") call_ended_summary s2
          else again s2)

  -- What follows the effects of a step.
  conclude :
      ℕ
      → Step
      → ℕ
      → List Step
      → (S → Result E (List StepOutcome) × S)
      → Result E (Text × StepEnd) × S
      → Result E (List StepOutcome) × S
  unfolding between prepend
  conclude index step t_start rest again (err e, s) = (err e, s)
  conclude index step t_start rest again (ok (summary, end_reason), s) =
      let (t_end, s') = io.now_ms s in
      prepend
        (record {
          index = index;
          id = step.id;
          step_type = name step.kind;
          description = step.description;
          t_start_ms = t_start;
          t_end_ms = t_end;
          end_reason = end_reason;
          summary = summary;
        })
        (between index rest again s')

  pub run_from : ℕ → List Step → S → Result E (List StepOutcome) × S
  unfolding conclude log_description prepend
  run_from index [] s = (ok [], s)
  run_from index (step ∷ rest) s =
      let (t_start, s') = io.now_ms s in
      let again = λ (v : S). run_from (index + 1) rest v in
      if io.inbound_mode s' && is_call_setup step.kind
      then prepend
          (skipped index step t_start skipped_step
            (name step.kind ++ bytes " skipped (auto-answer mode)"))
          (again s')
      else conclude index step t_start rest again
          (run_step step.kind (log_description step.description s'))

  -- Runs all steps, up to the first error.
  pub run_job : List Step → S → Result E (List StepOutcome) × S
  unfolding run_from
  run_job steps s = run_from 0 steps s
