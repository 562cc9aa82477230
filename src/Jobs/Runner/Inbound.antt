-- ===== src/Jobs/Runner/Inbound.antt =====
-- jobs/runner.rs: a job on an auto-answered call never sets a call up.
use mathlib.Core.Path.{fun_ext}
use dial_f.Prelude.{
  ℕ, ◌+◌, ◌≡◌, refl, ap, ◌∙◌, true, false, Option, none, some, List, [], ◌∷◌, Bool-cases, inl, inr,
}
use dial_f.Prelude.Outcome.{Result, ok, err}
use dial_f.Prelude.Text.{Text}
use dial_f.Jobs.Schema.{Step, StepKind, call_dial, call_wait_answered, call_answer}
use dial_f.Jobs.Runner.{
  JobIo, StepOutcome, StepEnd, is_call_setup, run_step, log_description, prepend, between, conclude,
  run_from, run_job,
}

module _ {S E : Type 0} (io : JobIo S E) (dial : Text → S → Result E (Unit {0}) × S)
    (wait_for_answer : ℕ → S → Result E (Unit {0}) × S) (answer : S → Result E (Unit {0}) × S) where
  -- The same effects, but for the three that set up a call.
  abbrev pub other : JobIo S E
  other = record io { dial = dial; wait_for_answer = wait_for_answer; answer = answer }

  run_step-other :
      (k : StepKind) (s : S) → is_call_setup k ≡ false → run_step other k s ≡ run_step io k s
  unfolding run_step is_call_setup
  run_step-other (call_dial n) s h = cc
  run_step-other (call_wait_answered t) s h = cc
  run_step-other call_answer s h = cc
  run_step-other _ s h = refl

  prepend-other :
      (o : StepOutcome) (r : Result E (List StepOutcome) × S) → prepend other o r ≡ prepend io o r
  unfolding prepend
  prepend-other o (err e, s) = refl
  prepend-other o (ok os, s) = refl

  log_description-other :
      (d : Option Text) (s : S) → log_description other d s ≡ log_description io d s
  unfolding log_description
  log_description-other none s = refl
  log_description-other (some d) s = refl

  between-other :
      (i : ℕ) (rest : List Step) (again : S → Result E (List StepOutcome) × S) (s : S)
      → between other i rest again s ≡ between io i rest again s
  unfolding between
  between-other i rest again s = refl

  conclude-other :
      (i : ℕ) (step : Step) (t : ℕ) (rest : List Step) (again : S → Result E (List StepOutcome) × S)
      (r : Result E (Text × StepEnd) × S)
      → conclude other i step t rest again r ≡ conclude io i step t rest again r
  unfolding conclude
  conclude-other i step t rest again (err e, s) = refl
  conclude-other i step t rest again (ok a, s) =
      prepend-other _ (between other i rest again (io.now_ms s).1)
      ∙ ap (prepend io _) (between-other i rest again (io.now_ms s).1)

  run_from-other :
      ((s : S) → io.inbound_mode s ≡ true)
      → (i : ℕ) (steps : List Step) (s : S) → run_from other i steps s ≡ run_from io i steps s
  unfolding run_from
  run_from-other inbound i [] s = refl
  run_from-other inbound i (step ∷ rest) s =
      let (t, s') = io.now_ms s in
      let again = λ (v : S). run_from other (i + 1) rest v in
      let same : again ≡ (λ v. run_from io (i + 1) rest v) =
        fun_ext (λ v. run_from-other inbound (i + 1) rest v) in
      let r = run_step other step.kind (log_description other step.description s') in
      elim (Bool-cases (is_call_setup step.kind)) [
        | inl c ↦
            rw (inbound s', c) (prepend-other _ (again s') ∙ ap (prepend io _) (λ j. same j s'))
        | inr c ↦
            rw (inbound s', c)
              (conclude-other i step t rest again r
                ∙ (ap (λ k. conclude io i step t rest k r) same
                    ∙ ap (conclude io i step t rest (λ v. run_from io (i + 1) rest v)) (
                        run_step-other step.kind (log_description other step.description s') c
                        ∙ ap (run_step io step.kind) (log_description-other step.description s'))))
      ]

  -- In inbound mode the run does not depend on what dialling, waiting for an answer and answering
  -- do: no step of the job calls them.
  pub run_job-inbound :
      ((s : S) → io.inbound_mode s ≡ true)
      → (steps : List Step) (s : S) → run_job other steps s ≡ run_job io steps s
  unfolding run_job
  run_job-inbound inbound steps s = run_from-other inbound 0 steps s
