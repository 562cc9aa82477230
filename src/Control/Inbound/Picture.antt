-- ===== src/Control/Inbound/Picture.antt =====
-- daemon.rs and control_server.rs: what happens to the answering of calls, and a plain description of
-- it that knows no tokens.
use dial_f.Prelude.{
  ℕ, Bool, not, ◌&&◌, ◌||◌, Option, none, some, List, [], ◌∷◌, exists, if◌then◌else◌,
}
use dial_f.Prelude.Outcome.{Result, ok, err}
use dial_f.Prelude.Assoc.{lookup}
use dial_f.Prelude.Text.{Text, text_eq}
use dial_f.Daemon.{
  DaemonState, InboundJob, answer_only, job_path, job_steps, InboundHandler, only_answer, run_file,
  run_steps, resolve_under,
}
use dial_f.Control.{AutoanswerValue, ControlError, Files}
use dial_f.Control.Validation.{JobMap, transpose, validate_record_dir, validate_autoanswer}
use dial_f.Control.Overrides.{or_keep, override_set, override_clear}
use dial_f.Control.Inbound.{start_serve, end_serve}

-- What arrives: a client that serves numbers, its leaving, and the override requests.
pub data Event : Type 0 where
  client_serves : (numbers : List Text) → (path : Text) → (device : Option Text) → Event
  client_leaves : Event
  set_jobs : Option Text → Option (List (Text × Option AutoanswerValue)) → Event
  clear_jobs : (record_dir autoanswer : Bool) → Event

-- The daemon, with the token that the session running on a connection has.
abbrev pub Running : Type 0
Running = Option ℕ × DaemonState

unfoldable pub leave : Option ℕ → DaemonState → Running
unfolding end_serve
leave none st = (none, st)
leave (some t) st = (none, end_serve t st)

-- A client that is refused leaves the running session alone.
unfoldable pub serve_beside : Option ℕ → Option ℕ × DaemonState → Running
serve_beside token (none, st) = (token, st)
serve_beside token (some t, st) = (some t, st)

unfoldable pub run_event : Files → Event → Running → Running
unfolding start_serve override_set override_clear serve_beside leave
run_event files (client_serves numbers path device) (token, st) =
    serve_beside token (start_serve numbers path device st)
run_event files client_leaves (token, st) = leave token st
run_event files (set_jobs dir jobs) (token, st) =
    (token, (override_set {R = Unit {0}} files dir jobs st).1)
run_event files (clear_jobs dir jobs) (token, st) =
    (token, (override_clear {R = Unit {0}} dir jobs st).1)

unfoldable pub run_events : Files → List Event → Running → Running
unfolding run_event
run_events files [] c = c
run_events files (e ∷ es) c = run_events files es (run_event files e c)

-- The description: the session that is served, and the override of the jobs.
pub record Serving : Type 0 where
  pub numbers : List Text
  pub path : Text
  pub device : Option Text

pub record Picture : Type 0 where
  pub serving : Option Serving
  pub jobs : Option JobMap

-- The override that a valid request makes.
unfoldable pub settled :
    Result ControlError (Option Text)
    → Result ControlError (Option JobMap)
    → Option JobMap
    → Option JobMap
settled (ok d) (ok m) old = or_keep m old
settled (ok d) (err e) old = old
settled (err e) m old = old

-- The first session stays.
unfoldable pub joined : Serving → Option Serving → Option Serving
joined new none = some new
joined new (some old) = some old

unfoldable pub picture_event : Files → Event → Picture → Picture
unfolding settled joined
picture_event files (client_serves numbers path device) p = record p {
  serving = joined (record { numbers = numbers; path = path; device = device }) p.serving;
}
picture_event files client_leaves p = record p { serving = none }
picture_event files (set_jobs dir jobs) p = record p {
  jobs =
      settled (transpose (validate_record_dir files) dir)
        (transpose (validate_autoanswer files) jobs) p.jobs;
}
picture_event files (clear_jobs dir jobs) p = record p {
  jobs = if jobs || (not dir && not jobs) then none else p.jobs;
}

unfoldable pub picture_events : Files → List Event → Picture → Picture
unfolding picture_event
picture_events files [] p = p
picture_events files (e ∷ es) p = picture_events files es (picture_event files e p)

unfoldable pub by_job : InboundJob → InboundHandler
by_job answer_only = only_answer
by_job (job_path p) = run_file p none
by_job (job_steps s) = run_steps s

-- Who answers when no session serves the number: the override in force, and without one the settings.
unfoldable pub standing :
    Option Text → List (Text × Option Text) → Option JobMap → Text → Option InboundHandler
unfolding by_job
standing base config (some jobs) number = elim (lookup number jobs) [
  | none ↦ none
  | some j ↦ some (by_job j)
]
standing base config none number = elim (lookup number config) [
  | none ↦ none
  | some none ↦ some only_answer
  | some (some path) ↦ some (run_file (resolve_under base path) none)
]

unfoldable pub answer_of :
    Option Text → List (Text × Option Text) → Picture → Text → Option InboundHandler
unfolding standing
answer_of base config p number = elim p.serving [
  | none ↦ standing base config p.jobs number
  | some s ↦
      if exists (λ n. text_eq number n) s.numbers
      then some (run_file s.path s.device)
      else standing base config p.jobs number
]
