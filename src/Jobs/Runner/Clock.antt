-- ===== src/Jobs/Runner/Clock.antt =====
-- jobs/runner.rs: the times of the outcomes, on a clock that never runs backwards.
use dial_f.Prelude.{
  ℕ, ◌+◌, ◌≤◌, ◌≡◌, refl, inl, inr, ◌&&◌, Option, none, some, List, [], ◌∷◌, Bool-cases, arith,
}
use dial_f.Prelude.Outcome.{Result, ok, err}
use dial_f.Prelude.Text.{Text}
use dial_f.Audio.Turn.{TurnConfig}
use dial_f.Jobs.Schema.{
  Step, StepKind, audio_play, audio_wait_for_speech, audio_wait_for_speech_start, call_dial,
  call_wait_answered, call_answer, call_hangup, sms_send, wait, log,
}
use dial_f.Jobs.Runner.{
  JobIo, StepEnd, StepOutcome, skipped, push_skipped, marker, was_cancelled, call_over,
  skipped_step, is_call_setup, summarised, run_step, log_description, prepend, stop, between,
  conclude, run_from, run_job,
}

-- No effect turns the clock back, and `now_ms` reads it.
pub record IsClocked {S E : Type 0} (io : JobIo S E) (clock : S → ℕ) : Type 0 where
  pub play : (f : Text) (s : S) → clock s ≤ clock (io.play f s).1
  pub wait_for_speech : (t : TurnConfig) (s : S) → clock s ≤ clock (io.wait_for_speech t s).1
  pub wait_for_speech_start :
      (a b c : ℕ) (s : S) → clock s ≤ clock (io.wait_for_speech_start a b c s).1
  pub dial : (n : Text) (s : S) → clock s ≤ clock (io.dial n s).1
  pub wait_for_answer : (t : ℕ) (s : S) → clock s ≤ clock (io.wait_for_answer t s).1
  pub answer : (s : S) → clock s ≤ clock (io.answer s).1
  pub hangup : (s : S) → clock s ≤ clock (io.hangup s).1
  pub send_sms : (a b : Text) (s : S) → clock s ≤ clock (io.send_sms a b s).1
  pub sleep : (t : ℕ) (s : S) → clock s ≤ clock (io.sleep t s).1
  pub log_line : (m : Text) (s : S) → clock s ≤ clock (io.log_line m s)
  pub call_ended : (s : S) → clock s ≤ clock (io.call_ended s).1
  pub cancelled : (s : S) → clock s ≤ clock (io.cancelled s).1
  pub now_after : (s : S) → clock s ≤ (io.now_ms s).0
  pub now_before : (s : S) → (io.now_ms s).0 ≤ clock (io.now_ms s).1

-- The outcomes follow one another from time `t` on, none before its predecessor has ended.
abbrev pub Timed : ℕ → List StepOutcome → Type 0
Timed t [] = Unit
Timed t (o ∷ os) = (t ≤ o.t_start_ms) × (o.t_start_ms ≤ o.t_end_ms) × Timed o.t_end_ms os

Timed-mono : {a b : ℕ} (os : List StepOutcome) → a ≤ b → Timed b os → Timed a os
Timed-mono [] h t = tt
Timed-mono (o ∷ os) h t = (omega arith, t.1, t.2)

push_skipped-Timed : (i at : ℕ) (steps : List Step) → Timed at (push_skipped i at steps)
unfolding push_skipped
push_skipped-Timed i at [] = tt
push_skipped-Timed i at (step ∷ rest) =
    (omega arith, omega arith, push_skipped-Timed (i + 1) at rest)

pub summarised-state :
    {S E A : Type 0} (f : A → Text × StepEnd) (r : Result E A × S) → (summarised f r).1 ≡ r.1
unfolding summarised
summarised-state f (err e, s) = refl
summarised-state f (ok a, s) = refl

module _ {S E : Type 0} (io : JobIo S E) (clock : S → ℕ) (law : IsClocked io clock) where
  run_step-clock : (k : StepKind) (s : S) → clock s ≤ clock (run_step io k s).1
  unfolding run_step
  run_step-clock (audio_play f) s = rw summarised-state (law.play f s)
  run_step-clock (audio_wait_for_speech a b c) s = rw summarised-state (law.wait_for_speech _ s)
  run_step-clock (audio_wait_for_speech_start a b c) s =
      rw summarised-state (law.wait_for_speech_start a b c s)
  run_step-clock (call_dial n) s = rw summarised-state (law.dial n s)
  run_step-clock (call_wait_answered t) s = rw summarised-state (law.wait_for_answer t s)
  run_step-clock call_answer s = rw summarised-state (law.answer s)
  run_step-clock call_hangup s = rw summarised-state (law.hangup s)
  run_step-clock (sms_send a b) s = rw summarised-state (law.send_sms a b s)
  run_step-clock (wait t) s = rw summarised-state (law.sleep t s)
  run_step-clock (log m) s = law.log_line m s

  log_description-clock : (d : Option Text) (s : S) → clock s ≤ clock (log_description io d s)
  unfolding log_description
  log_description-clock none s = omega arith
  log_description-clock (some d) s = law.log_line d s

  -- A result's outcomes are timed from `t` on.
  abbrev TimedFrom : ℕ → Result E (List StepOutcome) × S → Type 0
  TimedFrom t r = elim r.0 [ err e ↦ Unit {0} | ok os ↦ Timed t os ]

  TimedFrom-mono :
      {a b : ℕ} (r : Result E (List StepOutcome) × S) → a ≤ b → TimedFrom b r → TimedFrom a r
  TimedFrom-mono (err e, s) h t = tt
  TimedFrom-mono (ok os, s) h t = Timed-mono os h t

  prepend-TimedFrom :
      (t : ℕ) (o : StepOutcome) (r : Result E (List StepOutcome) × S)
      → t ≤ o.t_start_ms
      → o.t_start_ms ≤ o.t_end_ms
      → TimedFrom o.t_end_ms r
      → TimedFrom t (prepend io o r)
  unfolding prepend
  prepend-TimedFrom t o (err e, s) h k r = tt
  prepend-TimedFrom t o (ok os, s) h k r = (h, k, r)

  skipped-TimedFrom :
      (t at i : ℕ) (step : Step) (sm : Text) (r : Result E (List StepOutcome) × S)
      → t ≤ at
      → TimedFrom at r
      → TimedFrom t (prepend io (skipped i step at skipped_step sm) r)
  unfolding skipped
  skipped-TimedFrom t at i step sm r h k = prepend-TimedFrom t _ r h (omega arith) k

  stop-TimedFrom :
      (i : ℕ) (rest : List Step) (e : StepEnd) (d sm : Text) (s : S)
      → TimedFrom (clock s) (stop io i rest e d sm s)
  unfolding stop marker
  stop-TimedFrom i rest e d sm s =
      (law.now_after s, omega arith, push_skipped-Timed (i + 1) (io.now_ms s).0 rest)

  between-TimedFrom :
      (i : ℕ) (rest : List Step) (again : S → Result E (List StepOutcome) × S)
      → ((v : S) → TimedFrom (clock v) (again v))
      → (s : S) → TimedFrom (clock s) (between io i rest again s)
  unfolding between
  between-TimedFrom i rest again later s =
      let s1 = (io.cancelled s).1 in
      let s2 = (io.call_ended s1).1 in
      elim (Bool-cases (io.cancelled s).0) [
        | inl c ↦ rw c (
            TimedFrom-mono (stop io i rest was_cancelled _ _ s1) (law.cancelled s)
              (stop-TimedFrom i rest was_cancelled _ _ s1))
        | inr c ↦ rw c (elim (Bool-cases (io.call_ended s1).0) [
          | inl e ↦ rw e (
              TimedFrom-mono (stop io i rest call_over _ _ s2)
                (omega (arith, law.cancelled s, law.call_ended s1))
                (stop-TimedFrom i rest call_over _ _ s2))
          | inr e ↦ rw e (
              TimedFrom-mono (again s2) (omega (arith, law.cancelled s, law.call_ended s1))
                (later s2))
        ])
      ]

  conclude-TimedFrom :
      (i : ℕ) (step : Step) (t : ℕ) (rest : List Step) (again : S → Result E (List StepOutcome) × S)
      → ((v : S) → TimedFrom (clock v) (again v))
      → (r : Result E (Text × StepEnd) × S) → t ≤ clock r.1
      → TimedFrom t (conclude io i step t rest again r)
  unfolding conclude
  conclude-TimedFrom i step t rest again later (err e, s) h = tt
  conclude-TimedFrom i step t rest again later (ok a, s) h =
      let s' = (io.now_ms s).1 in
      prepend-TimedFrom t _ (between io i rest again s') (omega arith)
        (omega (arith, law.now_after s))
        (TimedFrom-mono (between io i rest again s') (law.now_before s)
          (between-TimedFrom i rest again later s'))

  run_from-TimedFrom :
      (i : ℕ) (steps : List Step) (s : S) → TimedFrom (clock s) (run_from io i steps s)
  unfolding run_from
  run_from-TimedFrom i [] s = tt
  run_from-TimedFrom i (step ∷ rest) s =
      let s' = (io.now_ms s).1 in
      let v = log_description io step.description s' in
      let again = λ (w : S). run_from-TimedFrom (i + 1) rest w in
      elim (Bool-cases (io.inbound_mode s' && is_call_setup step.kind)) [
        | inl c ↦ rw c (
            skipped-TimedFrom (clock s) (io.now_ms s).0 i step _ (run_from io (i + 1) rest s')
              (law.now_after s)
              (TimedFrom-mono (run_from io (i + 1) rest s') (law.now_before s) (again s')))
        | inr c ↦ rw c (
            TimedFrom-mono
              (conclude io i step (io.now_ms s).0 rest (λ w. run_from io (i + 1) rest w)
                (run_step io step.kind v))
              (law.now_after s)
              (conclude-TimedFrom i step (io.now_ms s).0 rest (λ w. run_from io (i + 1) rest w)
                again (run_step io step.kind v)
                (omega (
                  arith,
                  law.now_before s,
                  log_description-clock step.description s',
                  run_step-clock step.kind v,
                ))))
      ]

  TimedFrom-ok :
      (t : ℕ) (r : Result E (List StepOutcome) × S) {os : List StepOutcome} {s : S}
      → r ≡ (ok os, s)
      → TimedFrom t r
      → Timed t os
  TimedFrom-ok t (err e, s) h k = cc
  TimedFrom-ok t (ok os', s) {os} h k = let q : os ≡ os' = ground arith in rw q k

  -- The outcomes of a job that succeeds follow one another in time: each ends no earlier than it
  -- starts, and starts no earlier than the one before it ended or the job began.
  pub run_job-Timed :
      (steps : List Step) (s : S) {os : List StepOutcome} {s' : S}
      → run_job io steps s ≡ (ok os, s')
      → Timed (clock s) os
  unfolding run_job
  run_job-Timed steps s {os} {s'} h =
      TimedFrom-ok (clock s) (run_job io steps s) {s = s'} h (run_from-TimedFrom 0 steps s)
