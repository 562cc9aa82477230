-- ===== src/Jobs/Runner/Accounting.antt =====
-- jobs/runner.rs: every step of a job is accounted for.
use dial_f.Prelude.{ℕ, ◌+◌, ◌≡◌, refl, ap, ◌∙◌, true, false, List, [], ◌∷◌, map, keep, All, arith}
use dial_f.Prelude.Outcome.{ok}
use dial_f.Jobs.Schema.{Step}
use dial_f.Jobs.Runner.{JobIo, StepOutcome, push_skipped, run_job}
use dial_f.Jobs.Runner.Reports.{
  is_report, was_run, entry, entry_of, entries, IsSkip, Report, all_done, passed_over, ran, halted,
  run_job-Report,
}

push_skipped-entries :
    (i at : ℕ) (steps : List Step)
    → map entry (keep is_report (push_skipped i at steps)) ≡ entries i steps
unfolding push_skipped
push_skipped-entries i at [] = refl
push_skipped-entries i at (step ∷ rest) =
    ap (λ l. entry_of i step ∷ l) (push_skipped-entries (i + 1) at rest)

push_skipped-IsSkip : (i at : ℕ) (steps : List Step) → All (IsSkip at) (push_skipped i at steps)
unfolding push_skipped
push_skipped-IsSkip i at [] = tt
push_skipped-IsSkip i at (step ∷ rest) = ((refl, refl, refl), push_skipped-IsSkip (i + 1) at rest)

reported :
    (o : StepOutcome) (os : List StepOutcome)
    → is_report o ≡ true
    → map entry (keep is_report (o ∷ os)) ≡ entry o ∷ map entry (keep is_report os)
reported o os h = rw h refl

was_run-is_report : (o : StepOutcome) → was_run o.end_reason ≡ true → is_report o ≡ true
was_run-is_report o h = ground arith

Report-entries :
    {i : ℕ} {steps : List Step} {os : List StepOutcome}
    → Report i steps os
    → map entry (keep is_report os) ≡ entries i steps
Report-entries (all_done i) = refl
Report-entries (passed_over i step rest o os c e k r) =
    reported o os (ground arith) ∙ cc (e, Report-entries r)
Report-entries (ran i step rest o os e w r) =
    reported o os (was_run-is_report o w) ∙ cc (e, Report-entries r)
Report-entries (halted i step rest o m ms e w a b c d) =
    reported o (m ∷ ms) (was_run-is_report o w)
    ∙ rw a (
        cc (
          e,
          ap (λ l. map entry (keep is_report l)) d,
          push_skipped-entries (i + 1) m.t_start_ms rest,
        ))

-- Behind a marker every outcome is a skip at the marker's time.
abbrev pub Stops : List StepOutcome → Type 0
Stops [] = Unit
Stops (o ∷ os) = (is_report o ≡ false → All (IsSkip o.t_start_ms) os) × Stops os

skips-Stops : (at : ℕ) (os : List StepOutcome) → All (IsSkip at) os → Stops os
skips-Stops at [] a = tt
skips-Stops at (o ∷ os) a = (λ h. ground arith, skips-Stops at os a.1)

Report-Stops : {i : ℕ} {steps : List Step} {os : List StepOutcome} → Report i steps os → Stops os
Report-Stops (all_done i) = tt
Report-Stops (passed_over i step rest o os c e k r) = (λ h. ground arith, Report-Stops r)
Report-Stops (ran i step rest o os e w r) =
    (λ h. ground (arith, was_run-is_report o w), Report-Stops r)
Report-Stops (halted i step rest o m ms e w a b c d) =
    let skips : All (IsSkip m.t_start_ms) ms =
      rw d (push_skipped-IsSkip (i + 1) m.t_start_ms rest) in
    (λ h. ground (arith, was_run-is_report o w), (λ h. skips, skips-Stops m.t_start_ms ms skips))

module _ {S E : Type 0} (io : JobIo S E) (steps : List Step) (s : S) {os : List StepOutcome}
    {s' : S} (h : run_job io steps s ≡ (ok os, s')) where
  -- A job that succeeds reports each of its steps once, in order, with the step's index, id, type
  -- and description, whether it ran, was passed over or was never reached.
  pub run_job-entries : map entry (keep is_report os) ≡ entries 0 steps
  run_job-entries = Report-entries (run_job-Report io steps s h)

  -- Once a job was cancelled or its call ended, every later outcome is a skip that takes no time,
  -- at the moment of the stop.
  pub run_job-Stops : Stops os
  run_job-Stops = Report-Stops (run_job-Report io steps s h)
