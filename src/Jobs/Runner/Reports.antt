-- ===== src/Jobs/Runner/Reports.antt =====
-- jobs/runner.rs: what the outcomes of a job say of its steps.
use dial_f.Prelude.{
  ℕ, ◌+◌, ◌≡◌, refl, ◌⊎◌, inl, inr, Bool, true, false, ◌&&◌, Option, List, [], ◌∷◌, Bool-cases,
  arith,
}
use dial_f.Prelude.Outcome.{Result, ok, err}
use dial_f.Prelude.Text.{Text, bytes}
use dial_f.Audio.Turn.{EndReason, silence, timeout, end_of_stream}
use dial_f.Jobs.Schema.{
  Step, StepKind, name, audio_play, audio_wait_for_speech, audio_wait_for_speech_start, call_dial,
  call_wait_answered, call_answer, call_hangup, sms_send, wait, log,
}
use dial_f.Jobs.Runner.{
  JobIo, StepEnd, completed, timed_out, skipped_step, was_cancelled, call_over, StepOutcome,
  skipped, push_skipped, marker, is_call_setup, summarised, speech_end, run_step, log_description,
  prepend, stop, between, conclude, run_from, cancelled_summary, call_ended_summary, run_job,
}

-- The outcome is that of a step; the others say why a job stopped early.
abbrev pub is_report : StepOutcome → Bool
is_report o = elim o.end_reason [ was_cancelled ↦ false | call_over ↦ false | _ ↦ true ]

abbrev pub was_run : StepEnd → Bool
was_run e = elim e [ completed ↦ true | timed_out ↦ true | _ ↦ false ]

-- What an outcome repeats of its step.
abbrev pub entry : StepOutcome → ℕ × Option Text × Text × Option Text
entry o = (o.index, o.id, o.step_type, o.description)

abbrev pub entry_of : ℕ → Step → ℕ × Option Text × Text × Option Text
entry_of i step = (i, step.id, name step.kind, step.description)

abbrev pub entries : ℕ → List Step → List (ℕ × Option Text × Text × Option Text)
entries i [] = []
entries i (step ∷ rest) = entry_of i step ∷ entries (i + 1) rest

abbrev pub IsSkip : ℕ → StepOutcome → Type 0
IsSkip at o = (o.end_reason ≡ skipped_step) × (o.t_start_ms ≡ at) × (o.t_end_ms ≡ at)

-- The ways in which the outcomes of the steps from `i` on come about.
pub data Report : ℕ → List Step → List StepOutcome → Type 0 where
  all_done : (i : ℕ) → Report i [] []
  passed_over :
      (i : ℕ) (step : Step) (rest : List Step) (o : StepOutcome) (os : List StepOutcome)
      → is_call_setup step.kind ≡ true
      → entry o ≡ entry_of i step
      → IsSkip o.t_start_ms o
      → Report (i + 1) rest os
      → Report i (step ∷ rest) (o ∷ os)
  ran :
      (i : ℕ) (step : Step) (rest : List Step) (o : StepOutcome) (os : List StepOutcome)
      → entry o ≡ entry_of i step
      → was_run o.end_reason ≡ true
      → Report (i + 1) rest os
      → Report i (step ∷ rest) (o ∷ os)
  halted :
      (i : ℕ) (step : Step) (rest : List Step) (o m : StepOutcome) (os : List StepOutcome)
      → entry o ≡ entry_of i step
      → was_run o.end_reason ≡ true
      → is_report m ≡ false
      → m.index ≡ i + 1
      → m.t_end_ms ≡ m.t_start_ms
      → os ≡ push_skipped (i + 1) m.t_start_ms rest
      → Report i (step ∷ rest) (o ∷ m ∷ os)

module _ {S E : Type 0} (io : JobIo S E) where
  summarised-ok :
      {A : Type 0} (f : A → Text × StepEnd) (r : Result E A × S) {a : Text × StepEnd} {s : S}
      → ((x : A) → was_run (f x).1 ≡ true)
      → summarised f r ≡ (ok a, s)
      → was_run a.1 ≡ true
  unfolding summarised
  summarised-ok f (err e, s) h k = cc
  summarised-ok f (ok x, s) h k = ground (arith, h x)

  speech_end-was_run : (r : EndReason) → was_run (speech_end r) ≡ true
  unfolding speech_end
  speech_end-was_run silence = refl
  speech_end-was_run timeout = refl
  speech_end-was_run end_of_stream = refl

  run_step-was_run :
      (k : StepKind) (s : S) {a : Text × StepEnd} {s' : S}
      → run_step io k s ≡ (ok a, s')
      → was_run a.1 ≡ true
  unfolding run_step
  run_step-was_run (audio_play f) s h = summarised-ok _ (io.play f s) (λ x. refl) h
  run_step-was_run (audio_wait_for_speech a b c) s h =
      summarised-ok _ (io.wait_for_speech _ s) speech_end-was_run h
  run_step-was_run (audio_wait_for_speech_start a b c) s h =
      summarised-ok _ (io.wait_for_speech_start a b c s) (λ x. ground arith) h
  run_step-was_run (call_dial n) s h = summarised-ok _ (io.dial n s) (λ x. refl) h
  run_step-was_run (call_wait_answered t) s h =
      summarised-ok _ (io.wait_for_answer t s) (λ x. refl) h
  run_step-was_run call_answer s h = summarised-ok _ (io.answer s) (λ x. refl) h
  run_step-was_run call_hangup s h = summarised-ok _ (io.hangup s) (λ x. refl) h
  run_step-was_run (sms_send a b) s h = summarised-ok _ (io.send_sms a b s) (λ x. refl) h
  run_step-was_run (wait ms) s h = summarised-ok _ (io.sleep ms s) (λ x. refl) h
  run_step-was_run (log m) s h = ground arith

  prepend-ok :
      (o : StepOutcome) (r : Result E (List StepOutcome) × S) {os : List StepOutcome} {s : S}
      → prepend io o r ≡ (ok os, s)
      → (os' : List StepOutcome) × (r ≡ (ok os', s)) × (os ≡ o ∷ os')
  unfolding prepend
  prepend-ok o (err e, s) h = cc
  prepend-ok o (ok os', s) h = (os', ground arith, ground arith)

  -- The marker of a halt, and the skipped steps behind it.
  abbrev Halts : ℕ → List Step → List StepOutcome → Type 0
  Halts i rest os =
      (m : StepOutcome) × (ms : List StepOutcome) × (os ≡ m ∷ ms)
      × (is_report m ≡ false)
      × (m.index ≡ i + 1)
      × (m.t_end_ms ≡ m.t_start_ms)
      × (ms ≡ push_skipped (i + 1) m.t_start_ms rest)

  stop-Halts :
      (i : ℕ) (rest : List Step) (e : StepEnd) (d sm : Text) (s : S) {os : List StepOutcome}
      {s' : S}
      → is_report (marker (i + 1) (io.now_ms s).0 e d sm) ≡ false
      → stop io i rest e d sm s ≡ (ok os, s')
      → Halts i rest os
  unfolding stop
  stop-Halts i rest e d sm s h k =
      let at = (io.now_ms s).0 in
      (
        marker (i + 1) at e d sm,
        push_skipped (i + 1) at rest,
        ground arith,
        h,
        unfold marker in refl,
        unfold marker in refl,
        unfold marker in refl,
      )

  marker_hidden :
      (i at : ℕ) (d sm : Text)
      → (is_report (marker i at was_cancelled d sm) ≡ false)
        × (is_report (marker i at call_over d sm) ≡ false)
  unfolding marker
  marker_hidden i at d sm = (refl, refl)

  between-Report :
      (i : ℕ) (rest : List Step) (again : S → Result E (List StepOutcome) × S) (s : S)
      {os : List StepOutcome} {s' : S}
      → ((v : S) (ms : List StepOutcome) → again v ≡ (ok ms, s') → Report (i + 1) rest ms)
      → between io i rest again s ≡ (ok os, s')
      → Report (i + 1) rest os ⊎ Halts i rest os
  unfolding between
  between-Report i rest again s {os} {s'} reports h = elim (Bool-cases (io.cancelled s).0) [
    | inl c ↦ inr (
        stop-Halts i rest was_cancelled (bytes "cancelled") cancelled_summary (io.cancelled s).1
          {s' = s'} (marker_hidden _ _ _ _).0 (ground arith))
    | inr c ↦ elim (Bool-cases (io.call_ended (io.cancelled s).1).0) [
      | inl e ↦ inr (
          stop-Halts i rest call_over (bytes "call ended") call_ended_summary
            (io.call_ended (io.cancelled s).1).1 {s' = s'} (marker_hidden _ _ _ _).1 (ground arith))
      | inr e ↦ inl (reports (io.call_ended (io.cancelled s).1).1 os (ground arith))
    ]
  ]

  step_then :
      (i : ℕ) (step : Step) (rest : List Step) (o : StepOutcome) (os' : List StepOutcome)
      {os : List StepOutcome}
      → entry o ≡ entry_of i step
      → was_run o.end_reason ≡ true
      → os ≡ o ∷ os'
      → Report (i + 1) rest os' ⊎ Halts i rest os'
      → Report i (step ∷ rest) os
  step_then i step rest o os' e w q (inl r) = rw q (ran i step rest o os' e w r)
  step_then i step rest o os' e w q (inr (m, ms, x, a, b, c, d)) =
      rw (q, x) (halted i step rest o m ms e w a b c d)

  conclude-Report :
      (i : ℕ) (step : Step) (t : ℕ) (rest : List Step) (again : S → Result E (List StepOutcome) × S)
      (r : Result E (Text × StepEnd)) (s : S) {os : List StepOutcome} {s' : S}
      → ((a : Text × StepEnd) → r ≡ ok a → was_run a.1 ≡ true)
      → ((v : S) (ms : List StepOutcome) → again v ≡ (ok ms, s') → Report (i + 1) rest ms)
      → conclude io i step t rest again (r, s) ≡ (ok os, s')
      → Report i (step ∷ rest) os
  unfolding conclude
  conclude-Report i step t rest again (err e) s run reports h = cc
  conclude-Report i step t rest again (ok (summary, e)) s {os} {s'} run reports h =
      let (os', k, q) = prepend-ok _ _ h in
      step_then i step rest _ os' refl (run (summary, e) refl) q
        (between-Report i rest again (io.now_ms s).1 {s' = s'} reports k)

  setup_then :
      (i : ℕ) (step : Step) (rest : List Step) (t : ℕ) (sm : Text) (os' : List StepOutcome)
      {os : List StepOutcome}
      → is_call_setup step.kind ≡ true
      → os ≡ skipped i step t skipped_step sm ∷ os'
      → Report (i + 1) rest os'
      → Report i (step ∷ rest) os
  unfolding skipped
  setup_then i step rest t sm os' c q r =
      rw q (passed_over i step rest _ os' c refl (refl, refl, refl) r)

  -- The outcomes of a successful run are a report of its steps.
  run_from-Report :
      (i : ℕ) (steps : List Step) (s : S) {os : List StepOutcome} {s' : S}
      → run_from io i steps s ≡ (ok os, s')
      → Report i steps os
  unfolding run_from
  run_from-Report i [] s {os} h = let q : os ≡ [] = ground arith in rw q (all_done i)
  run_from-Report i (step ∷ rest) s {os} {s'} h =
      elim (Bool-cases (io.inbound_mode (io.now_ms s).1 && is_call_setup step.kind)) [
        | inl c ↦
            let (os', k, q) =
              prepend-ok _ (run_from io (i + 1) rest (io.now_ms s).1) {os = os} {s = s'}
                (rw c at h) in
            setup_then i step rest _ _ os' (ground arith) q
              (run_from-Report (i + 1) rest (io.now_ms s).1 k)
        | inr c ↦
            let v = log_description io step.description (io.now_ms s).1 in
            let r = run_step io step.kind v in
            conclude-Report i step (io.now_ms s).0 rest (λ w. run_from io (i + 1) rest w) r.0 r.1
              {s' = s'} (λ a e. run_step-was_run step.kind v {s' = r.1} (λ j. (e j, r.1)))
              (λ w ms k. run_from-Report (i + 1) rest w k) (rw c at h)
      ]

  -- A run that succeeds accounts for every step: its outcomes are a report of the steps from 0 on.
  pub run_job-Report :
      (steps : List Step) (s : S) {os : List StepOutcome} {s' : S}
      → run_job io steps s ≡ (ok os, s')
      → Report 0 steps os
  unfolding run_job
  run_job-Report steps s h = run_from-Report 0 steps s h
