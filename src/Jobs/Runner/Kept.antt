-- ===== src/Jobs/Runner/Kept.antt =====
-- jobs/runner.rs: what every effect of a job keeps is kept by the whole job.
use dial_f.Prelude.{ℕ, ◌+◌, inl, inr, ◌&&◌, Option, none, some, List, [], ◌∷◌, Bool-cases, All}
use dial_f.Prelude.Outcome.{Result, ok, err}
use dial_f.Prelude.Text.{Text}
use dial_f.Jobs.Schema.{Step, StepKind}
use dial_f.Jobs.Runner.{
  JobIo, StepEnd, StepOutcome, is_call_setup, run_step, log_description, prepend, stop, between,
  conclude, run_from, run_job,
}

-- The steps that `Allowed` names, and the effects between two steps, keep `P`.
pub record IsKept {S E : Type 0} (io : JobIo S E) (Allowed : StepKind → Type 0) (P : S → Type 0)
    : Type 0 where
  pub step : (k : StepKind) (s : S) → Allowed k → P s → P (run_step io k s).1
  pub log_line : (m : Text) (s : S) → P s → P (io.log_line m s)
  pub call_ended : (s : S) → P s → P (io.call_ended s).1
  pub cancelled : (s : S) → P s → P (io.cancelled s).1
  pub now_ms : (s : S) → P s → P (io.now_ms s).1

module _ {S E : Type 0} (io : JobIo S E) (Allowed : StepKind → Type 0) (P : S → Type 0)
    (law : IsKept io Allowed P) where
  log_description-Kept : (d : Option Text) (s : S) → P s → P (log_description io d s)
  unfolding log_description
  log_description-Kept none s p = p
  log_description-Kept (some d) s p = law.log_line d s p

  prepend-Kept :
      (o : StepOutcome) (r : Result E (List StepOutcome) × S) → P r.1 → P (prepend io o r).1
  unfolding prepend
  prepend-Kept o (err e, s) p = p
  prepend-Kept o (ok os, s) p = p

  between-Kept :
      (i : ℕ) (rest : List Step) (again : S → Result E (List StepOutcome) × S) (s : S)
      → ((v : S) → P v → P (again v).1)
      → P s
      → P (between io i rest again s).1
  unfolding between stop
  between-Kept i rest again s next p =
      let a = law.cancelled s p in
      let b = law.call_ended (io.cancelled s).1 a in
      elim (Bool-cases (io.cancelled s).0) [
        | inl e ↦ rw e (law.now_ms (io.cancelled s).1 a)
        | inr e ↦ rw e (elim (Bool-cases (io.call_ended (io.cancelled s).1).0) [
          | inl f ↦ rw f (law.now_ms (io.call_ended (io.cancelled s).1).1 b)
          | inr f ↦ rw f (next (io.call_ended (io.cancelled s).1).1 b)
        ])
      ]

  conclude-Kept :
      (i : ℕ) (step : Step) (t : ℕ) (rest : List Step) (again : S → Result E (List StepOutcome) × S)
      (r : Result E (Text × StepEnd) × S)
      → ((v : S) → P v → P (again v).1)
      → P r.1
      → P (conclude io i step t rest again r).1
  unfolding conclude
  conclude-Kept i step t rest again (err e, s) next p = p
  conclude-Kept i step t rest again (ok o, s) next p =
      prepend-Kept _ (between io i rest again (io.now_ms s).1)
        (between-Kept i rest again (io.now_ms s).1 next (law.now_ms s p))

  run_from-Kept :
      (i : ℕ) (steps : List Step) (s : S)
      → All (λ (step : Step). Allowed step.kind) steps
      → P s
      → P (run_from io i steps s).1
  unfolding run_from
  run_from-Kept i [] s a p = p
  run_from-Kept i (step ∷ rest) s a p =
      let s' = (io.now_ms s).1 in
      let p' = law.now_ms s p in
      let again = λ (v : S). run_from io (i + 1) rest v in
      let next = λ (v : S) (q : P v). run_from-Kept (i + 1) rest v a.1 q in
      elim (Bool-cases (io.inbound_mode s' && is_call_setup step.kind)) [
        | inl e ↦ rw e (prepend-Kept _ (again s') (next s' p'))
        | inr e ↦ rw e (
            conclude-Kept i step (io.now_ms s).0 rest again
              (run_step io step.kind (log_description io step.description s')) next
              (law.step step.kind (log_description io step.description s') a.0
                (log_description-Kept step.description s' p')))
      ]

  pub run_job-Kept :
      (steps : List Step) (s : S)
      → All (λ (step : Step). Allowed step.kind) steps
      → P s
      → P (run_job io steps s).1
  unfolding run_job
  run_job-Kept steps s a p = run_from-Kept 0 steps s a p
