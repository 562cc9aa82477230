-- ===== src/Control/Runs/Fresh.antt =====
-- daemon.rs: one job has the card at a time, and no flag of an earlier one reaches it.
use dial_f.Prelude.{
  ap, Bool, true, false, ◌≡◌, refl, Option, none, some, List, Bool-cases, inl, inr,
}
use dial_f.Prelude.Outcome.{Result, ok, err}
use dial_f.Prelude.Text.{Text}
use dial_f.Jobs.Schema.{Step}
use dial_f.Jobs.Track.{Tasks, Engine}
use dial_f.Daemon.{DaemonState, acquire_card, release_card}
use dial_f.Control.{Files, ControlError, Handler, ◌>>=◌, job_data, pure, JobRunOutput}
use dial_f.Control.Requests.{Admitted, check_run, job_device, resolve_device}
use dial_f.Control.Runs.{Recorder, run_held, clear_flags, with_card, run_admitted, job_run}

abbrev pub IsError : {A : Type 0} → Result ControlError A → Type 0
IsError (ok a) = ⊥
IsError (err e) = Unit {0}

-- With the card in use the request is refused and changes nothing; so is one without a body to run.
-- Else the body runs from the state in which the card is taken, the answer is the body's, and so is
-- the state, with the card free again.
abbrev pub IsExclusive :
    {A B : Type 0}
    → (A → B)
    → (busy : Bool) → Option (Handler A)
    → DaemonState
    → Result ControlError B × DaemonState
    → Type 0
IsExclusive f true body st (r, st') = IsError r × (st' ≡ st)
IsExclusive f false none st (r, st') = IsError r × (st' ≡ st)
IsExclusive f false (some body) st (r, st') =
    (taken : DaemonState) × (taken ≡ record st { card_busy = true })
    × (r ≡ elim (body taken).0 [ ok a ↦ ok (f a) | err e ↦ err e ])
    × (st' ≡ record (body taken).1 { card_busy = false })

refused-IsExclusive :
    {A B : Type 0} (f : A → B) (e : ControlError) (st : DaemonState) (b : Bool)
    → IsExclusive f b none st (err e, st)
refused-IsExclusive f e st true = (tt, refl)
refused-IsExclusive f e st false = (tt, refl)

released :
    {A B : Type 0} (f : A → B) (st : DaemonState) (r : Result ControlError A × DaemonState)
    → ((λ (u : DaemonState). (r.0, release_card r.1)) >>= λ a. pure (f a)) st
      ≡ (elim r.0 [ ok a ↦ ok (f a) | err e ↦ err e ], record r.1 { card_busy = false })
unfolding release_card
released f st (ok a, w) = refl
released f st (err e, w) = refl

with_card-IsExclusive :
    {A B : Type 0} (body : Handler A) (f : A → B) (st : DaemonState) (b : Bool)
    → st.card_busy ≡ b
    → IsExclusive f b
        (some body)
        st
        (((λ u. with_card (acquire_card u) body) >>= λ a. pure (f a)) st)
unfolding with_card acquire_card
with_card-IsExclusive body f st true h = rw h (tt, refl)
with_card-IsExclusive body f st false h =
    let taken : DaemonState = record st { card_busy = true } in
    let e = released f st (body taken) in rw h (taken, refl, ap (λ p. p.0) e, ap (λ p. p.1) e)

-- The flags that an earlier job, or a cancellation with no job to cancel, left behind.
abbrev pub stale : (cancel force abort : Bool) → DaemonState → DaemonState
stale cancel force abort st = record st {
  job_cancel = cancel;
  job_force = force;
  job_abort = abort;
}

resolve_device-stale :
    (device : Option Text) (c f a : Bool) (st : DaemonState)
    → resolve_device device (stale c f a st) ≡ resolve_device device st
unfolding resolve_device
resolve_device-stale none c f a st = refl
resolve_device-stale (some d) c f a st = refl

check_run-stale :
    (files : Files) (path : Option Text) (steps : Option (List Step)) (device dir : Option Text)
    (c f a : Bool) (st : DaemonState)
    → check_run files path steps device dir (stale c f a st)
      ≡ check_run files path steps device dir st
unfolding check_run job_device
check_run-stale files path steps device dir c f a st =
    rw (resolve_device-stale device c f a st) refl

module _ {Session Recording : Type 0} (recorder : Recorder Session Recording)
    (engine : Engine Session) (tasks : Tasks) where
  -- What an admitted request runs with the card.
  abbrev pub job_of :
      Option Text → Result ControlError Admitted → Option (Handler (JobRunOutput Recording))
  job_of name (err e) = none
  job_of name (ok a) = some (run_held recorder engine tasks a.device_id a.job name a.dir)

  run_admitted-IsExclusive :
      (name : Option Text) (r : Result ControlError Admitted) (st : DaemonState)
      → IsExclusive job_data st.card_busy
          (job_of name r)
          st
          (run_admitted recorder engine tasks name r st)
  unfolding run_admitted
  run_admitted-IsExclusive name (err e) st = refused-IsExclusive job_data e st st.card_busy
  run_admitted-IsExclusive name (ok a) st =
      with_card-IsExclusive (run_held recorder engine tasks a.device_id a.job name a.dir) job_data
        st _ refl

  -- One job has the sound card at a time. While a call or a recording has it, a `job.run` request is
  -- refused and changes nothing in the daemon, whatever it asks for; so is a request that fails the
  -- checks. Otherwise the job runs from the state of the request with the card marked as in use, and
  -- the answer and the state are the job's, with the card free again, whether it succeeded or failed.
  pub job_run-IsExclusive :
      (files : Files) (path : Option Text) (steps : Option (List Step))
      (device name dir : Option Text) (st : DaemonState)
      → IsExclusive job_data st.card_busy
          (job_of name (check_run files path steps device dir st))
          st
          (job_run recorder engine tasks files path steps device name dir st)
  unfolding job_run
  job_run-IsExclusive files path steps device name dir st =
      run_admitted-IsExclusive name (check_run files path steps device dir st) st

  run_admitted-fresh :
      (c f a : Bool) (name : Option Text) (r : Result ControlError Admitted) (st : DaemonState)
      → (run_admitted recorder engine tasks name r (stale c f a st)).0
        ≡ (run_admitted recorder engine tasks name r st).0
  unfolding run_admitted with_card acquire_card run_held clear_flags
  run_admitted-fresh c f a name (err e) st = refl
  run_admitted-fresh c f a name (ok x) st = elim (Bool-cases st.card_busy) [
    | inl h ↦ rw h refl
    | inr h ↦ rw h refl
  ]

  -- What a `job.run` request answers does not depend on the flags that an earlier job left set: a
  -- cancellation that came too late for that job, or a relaunch of the app, does not stop the next one.
  pub job_run-fresh :
      (files : Files) (path : Option Text) (steps : Option (List Step))
      (device name dir : Option Text) (c f a : Bool) (st : DaemonState)
      → (job_run recorder engine tasks files path steps device name dir (stale c f a st)).0
        ≡ (job_run recorder engine tasks files path steps device name dir st).0
  unfolding job_run
  job_run-fresh files path steps device name dir c f a st =
      rw (check_run-stale files path steps device dir c f a st)
        (run_admitted-fresh c f a name (check_run files path steps device dir st) st)
