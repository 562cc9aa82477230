-- ===== src/Jobs/Runner/Examples.antt =====
-- jobs/runner.rs at a concrete job, on a state that holds the time alone.
use dial_f.Prelude.{
  ℕ, zero, suc, ◌+◌, ◌≡◌, refl, Bool, true, false, none, some, List, [], ◌∷◌, ◌-◌, map, keep, arith,
}
use dial_f.Prelude.Outcome.{ok, err}
use dial_f.Prelude.Text.{Text, bytes}
use dial_f.Audio.Turn.{timeout}
use dial_f.Jobs.Schema.{Step, audio_play, call_dial}
use dial_f.Jobs.Runner.{
  JobIo, StepOutcome, skipped, run_job, run_from, run_step, push_skipped, marker, is_call_setup,
  summarised, log_description, prepend, stop, between, conclude,
}
use dial_f.Jobs.Runner.Reports.{is_report, entry, entries}
use dial_f.Jobs.Runner.Accounting.{run_job-entries}
use dial_f.Jobs.Runner.Inbound.{run_job-inbound, other}
use dial_f.Jobs.Runner.Clock.{IsClocked, Timed, run_job-Timed}

-- Playing takes 100 ms, and the call is over from 150 ms on.
abbrev phone : Bool → JobIo ℕ Text
phone inbound = record {
  play = λ f s. (ok tt, s + 100);
  wait_for_speech = λ t s. (ok timeout, s + 50);
  wait_for_speech_start = λ a b c s. (ok false, s + 50);
  dial = λ n s. (ok tt, s);
  wait_for_answer = λ t s. (ok tt, s + 10);
  answer = λ s. (ok tt, s);
  hangup = λ s. (ok tt, s);
  send_sms = λ a b s. (ok tt, s);
  sleep = λ t s. (ok tt, s + t);
  log_line = λ m s. s;
  call_ended = λ s. (elim (s - 150) [ zero ↦ false | suc k ↦ true ], s);
  inbound_mode = λ s. inbound;
  cancelled = λ s. (false, s);
  now_ms = λ s. (s, s);
}

abbrev plays : Step
plays = record { kind = audio_play (bytes "a.wav"); description = none; id = some (bytes "t1") }

abbrev dials : Step
dials = record { kind = call_dial (bytes "100"); description = none; id = none }

abbrev job : List Step
job = dials ∷ plays ∷ plays ∷ plays ∷ []

abbrev outcomes : List StepOutcome
outcomes = elim (run_job (phone true) job 0).0 [ ok os ↦ os | err e ↦ [] ]

job_run : run_job (phone true) job 0 ≡ (ok outcomes, 200)
unfolding run_job run_from run_step push_skipped marker is_call_setup summarised log_description
    prepend stop between conclude skipped
job_run = refl

run_job-entries_example : map entry (keep is_report outcomes) ≡ entries 0 job
run_job-entries_example = run_job-entries (phone true) job 0 job_run

run_job-inbound_example :
    run_job (other (phone true) (λ n s. (err n, s)) (λ t s. (err [], s)) (λ s. (err [], s))) job 0
    ≡ run_job (phone true) job 0
run_job-inbound_example =
    run_job-inbound (phone true) (λ n s. (err n, s)) (λ t s. (err [], s)) (λ s. (err [], s))
      (λ s. refl) job 0

phone-IsClocked : IsClocked (phone true) (λ s. s)
phone-IsClocked = record {
  play = λ f s. omega arith;
  wait_for_speech = λ t s. omega arith;
  wait_for_speech_start = λ a b c s. omega arith;
  dial = λ n s. omega arith;
  wait_for_answer = λ t s. omega arith;
  answer = λ s. omega arith;
  hangup = λ s. omega arith;
  send_sms = λ a b s. omega arith;
  sleep = λ t s. omega arith;
  log_line = λ m s. omega arith;
  call_ended = λ s. omega arith;
  cancelled = λ s. omega arith;
  now_after = λ s. omega arith;
  now_before = λ s. omega arith;
}

run_job-Timed_example : Timed 0 outcomes
run_job-Timed_example = run_job-Timed (phone true) (λ s. s) phone-IsClocked job 0 job_run
