-- ===== src/Control/Runs/Quiet.antt =====
-- daemon.rs: a job of sounds alone sends nothing to a phone.
use dial_f.Prelude.{ℕ, Bool, true, false, ◌≡◌, refl, Option, none, some, List, Bool-cases, inl, inr}
use dial_f.Prelude.Outcome.{Result, ok, err}
use dial_f.Prelude.Text.{Text}
use dial_f.Jobs.Schema.{Step}
use dial_f.Jobs.Runner.{StepOutcome}
use dial_f.Jobs.Runner.Kept.{run_job-Kept}
use dial_f.Jobs.Track.{CallSummary, IoError, Tasks, Engine, PhoneIo}
use dial_f.Jobs.Call.{new}
use dial_f.Jobs.Phone.{phone_io}
use dial_f.Phones.Hub.{Hub}
use dial_f.Daemon.{DaemonState, acquire_card, release_card}
use dial_f.Control.{Files, ControlError, Handler, ◌>>=◌, JobRunOutput, job_data, pure}
use dial_f.Control.Requests.{Admitted, job_needs_phone, check_run}
use dial_f.Control.Runs.{
  Recorder, recorded, begin_session, finish_session, report, settle_run, run_started,
  run_job_on_device, run_held, clear_flags, with_card, run_admitted, job_run,
}
use dial_f.Control.Runs.Silent.{IsQuiet, unneeded, check_run-job, phone_io-IsKept}

module _ {Session Recording : Type 0} (recorder : Recorder Session Recording)
    (engine : Engine Session) (tasks : Tasks) (P : Hub → Type 0)
    (law : IsQuiet recorder engine tasks P) where
  recorded-state :
      {A B : Type 0} (f : A → B) (r : Result Text A × DaemonState) → (recorded f r).1 ≡ r.1
  unfolding recorded
  recorded-state f (ok a, st) = refl
  recorded-state f (err e, st) = refl

  report-state :
      (run : Result IoError (List StepOutcome)) (call : Option CallSummary) (t0 : Option ℕ)
      (r : Result ControlError (Option Recording) × DaemonState)
      → (report recorder run call t0 r).1 ≡ r.1
  unfolding report
  report-state run call t0 (err e, st) = refl
  report-state (err e) call t0 (ok rec, st) = refl
  report-state (ok os) call t0 (ok rec, st) = refl

  begin_session-quiet :
      (dir label : Option Text) (st : DaemonState)
      → P st.hub
      → P (begin_session recorder dir label st).1.hub
  unfolding begin_session
  begin_session-quiet none label st p = p
  begin_session-quiet (some dir) label st p = rw recorded-state (law.start_duplex dir _ st p)

  finish_session-quiet :
      (s : Option Session) (st : DaemonState) → P st.hub → P (finish_session recorder s st).1.hub
  unfolding finish_session
  finish_session-quiet none st p = p
  finish_session-quiet (some s) st p = rw recorded-state (law.finish s st p)

  settle_run-quiet :
      (t0 : Option ℕ) (r : Result IoError (List StepOutcome) × PhoneIo Session)
      → P r.1.world.hub
      → P (settle_run recorder t0 r).1.hub
  unfolding settle_run
  settle_run-quiet t0 (run, io) p = rw report-state (finish_session-quiet io.session io.world p)

  run_started-quiet :
      (d : Text) (job : List Step) (inbound : Bool) (cancel force abort : DaemonState → Bool)
      (r : Result ControlError (Option Session × Option ℕ) × DaemonState)
      → job_needs_phone job ≡ false
      → P r.1.hub
      → P (run_started recorder engine tasks d job inbound cancel force abort r).1.hub
  unfolding run_started new
  run_started-quiet d job inbound cancel force abort (err e, st) h p = p
  run_started-quiet d job inbound cancel force abort (ok s, st) h p = settle_run-quiet s.1 _ (
      run_job-Kept (phone_io engine tasks) _ _ (phone_io-IsKept recorder engine tasks P law) job
        (new d s.0 inbound cancel force abort st) (unneeded job h) p)

  with_card-quiet :
      {A : Type 0} (r : Bool × DaemonState) (body : Handler A)
      → P r.1.hub
      → ((v : DaemonState) → P v.hub → P (body v).1.hub)
      → P (with_card r body).1.hub
  unfolding with_card release_card
  with_card-quiet (false, st) body p q = p
  with_card-quiet (true, st) body p q = q st p

  after-quiet :
      {A B : Type 0} (r : Result ControlError A) (w : DaemonState) (f : A → Handler B)
      → P w.hub
      → ((a : A) (v : DaemonState) → P v.hub → P (f a v).1.hub)
      → P (((λ st. (r, w)) >>= f) w).1.hub
  after-quiet (err e) w f p q = p
  after-quiet (ok a) w f p q = q a w p

  run_held-quiet :
      (d : Text) (job : List Step) (name dir : Option Text) (st : DaemonState)
      → job_needs_phone job ≡ false
      → P st.hub
      → P (run_held recorder engine tasks d job name dir st).1.hub
  unfolding run_held run_job_on_device clear_flags
  run_held-quiet d job name dir st h p =
      run_started-quiet d job false _ _ _ _ h (begin_session-quiet _ name (clear_flags st) p)

  acquire_card-quiet : (st : DaemonState) → P st.hub → P (acquire_card st).1.hub
  unfolding acquire_card
  acquire_card-quiet st p = elim (Bool-cases st.card_busy) [ inl e ↦ rw e p | inr e ↦ rw e p ]

  locked-quiet :
      (d : Text) (job : List Step) (name dir : Option Text) (st : DaemonState)
      → job_needs_phone job ≡ false
      → P st.hub
      → P (with_card (acquire_card st) (run_held recorder engine tasks d job name dir)).1.hub
  locked-quiet d job name dir st h p =
      with_card-quiet (acquire_card st) (run_held recorder engine tasks d job name dir)
        (acquire_card-quiet st p) (λ v q. run_held-quiet d job name dir v h q)

  run_admitted-quiet :
      (name : Option Text) (r : Result ControlError Admitted) (st : DaemonState)
      → ((a : Admitted) → r ≡ ok a → job_needs_phone a.job ≡ false)
      → P st.hub
      → P (run_admitted recorder engine tasks name r st).1.hub
  unfolding run_admitted
  run_admitted-quiet name (err e) st h p = p
  run_admitted-quiet name (ok a) st h p =
      let held : Handler (JobRunOutput Recording) = λ u.
        with_card (acquire_card u) (run_held recorder engine tasks a.device_id a.job name a.dir) in
      after-quiet (held st).0 (held st).1 (λ out. pure (job_data out))
        (locked-quiet a.device_id a.job name a.dir st (h a refl) p) (λ out u t. t)

  -- A `job.run` request whose steps neither call nor text sends nothing to a phone: what the hub has,
  -- and the passing of time, the engine and the recording do not take from it, it has after the
  -- request.
  pub job_run-quiet :
      (files : Files) (job : List Step) (device name dir : Option Text) (st : DaemonState)
      → job_needs_phone job ≡ false
      → P st.hub
      → P (job_run recorder engine tasks files none (some job) device name dir st).1.hub
  unfolding job_run
  job_run-quiet files job device name dir st h p =
      run_admitted-quiet name (check_run files none (some job) device dir st) st
        (λ a e. rw (check_run-job files job device dir st a e) h) p
