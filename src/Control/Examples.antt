-- ===== src/Control/Examples.antt =====
-- The requests on the sample daemon.
use dial_f.Prelude.{ℕ, ◌≡◌, refl, true, false, none, some, List, [], ◌∷◌}
use dial_f.Prelude.Text.{bytes}
use dial_f.Share.Config.Resolved.{default_config, adb, ResolvedShare}
use dial_f.Share.Config.Resolved.Safe.{IsSafe}
use dial_f.Share.Config.{tcp}
use dial_f.Share.Adb.{all}
use dial_f.Phones.Hub.{Hub}
use dial_f.Daemon.{new_state, resolve_inbound}
use dial_f.Control.{inline_steps, job_data}
use dial_f.Control.Sample.{idle, sounds, files, tasks, engine, recorder, network}
use dial_f.Control.Overrides.{override_set}
use dial_f.Control.Overrides.Atomic.{IsSettled, override_set-IsSettled}
use dial_f.Control.Inbound.Picture.{
  Event, client_serves, client_leaves, set_jobs, run_events, picture_events, answer_of,
}
use dial_f.Control.Inbound.Refines.{resolve_inbound-run_events}
use dial_f.Control.Requests.{check_run, job_needs_phone}
use dial_f.Control.Runs.{job_run}
use dial_f.Control.Runs.Silent.{IsQuiet}
use dial_f.Control.Runs.Quiet.{job_run-quiet}
use dial_f.Control.Runs.Fresh.{IsExclusive, job_of, stale, job_run-IsExclusive, job_run-fresh}
use dial_f.Control.Shares.{share_config, requested, start_share}
use dial_f.Control.Shares.Exposed.{IsStarted, Exposes, start_share-IsStarted}

override_set-IsSettled_example : IsSettled {R = Unit {0}} idle (
    override_set files
      (some (bytes "/rec"))
      (some ((bytes "100", some (inline_steps sounds)) ∷ []))
      idle)
unfolding new_state
override_set-IsSettled_example =
    override_set-IsSettled (Unit {0}) files (some (bytes "/rec"))
      (some ((bytes "100", some (inline_steps sounds)) ∷ [])) idle (tt, tt)

-- A served number goes to its session, and when the client has left, to the override.
abbrev an_evening : List Event
an_evening =
    client_serves (bytes "100" ∷ []) (bytes "/a.yaml") none
    ∷ set_jobs none (some ((bytes "100", some (inline_steps sounds)) ∷ []))
    ∷ client_leaves
    ∷ []

resolve_inbound-run_events_example :
    resolve_inbound (bytes "100") (run_events files an_evening (none, idle)).1
    ≡ answer_of
        (some (bytes "/etc/dialf"))
        ((bytes "100", none) ∷ [])
        (picture_events files an_evening (record { serving = none; jobs = none }))
        (bytes "100")
resolve_inbound-run_events_example =
    resolve_inbound-run_events (bytes "k") (some (bytes "/etc/dialf")) ((bytes "100", none) ∷ [])
      none default_config [] files an_evening (bytes "100")

job_run-IsExclusive_example :
    IsExclusive job_data false
      (job_of recorder engine tasks none
        (check_run files none (some sounds) none (some (bytes "/rec")) idle))
      idle
      (job_run recorder engine tasks files none (some sounds) none none (some (bytes "/rec")) idle)
unfolding new_state
job_run-IsExclusive_example =
    job_run-IsExclusive recorder engine tasks files none (some sounds) none none
      (some (bytes "/rec")) idle

job_run-fresh_example :
    (job_run recorder engine tasks files none
      (some sounds)
      none
      none
      none
      (stale true true true idle)).0
    ≡ (job_run recorder engine tasks files none (some sounds) none none none idle).0
job_run-fresh_example =
    job_run-fresh recorder engine tasks files none (some sounds) none none none true true true idle

abbrev HasSent : ℕ → Hub → Type 0
HasSent n h = h.seq ≡ n

all-IsQuiet : IsQuiet recorder engine tasks (HasSent 1)
all-IsQuiet = record {
  elapse = λ n w p. p;
  play_file = λ f b s w p. p;
  wait_for_speech = λ t b s w p. p;
  wait_for_speech_start = λ x y z b s w p. p;
  start_duplex = λ d n w p. p;
  finish = λ s w p. p;
}

job_run-quiet_example :
    HasSent 1
      (job_run recorder engine tasks files none
        (some sounds)
        none
        none
        (some (bytes "/rec"))
        idle).1.hub
unfolding new_state job_needs_phone
job_run-quiet_example =
    job_run-quiet recorder engine tasks (HasSent 1) all-IsQuiet files sounds none none
      (some (bytes "/rec")) idle refl refl

abbrev open_share : ResolvedShare
open_share = record {
  profile = adb;
  bound = record { is_loopback = false; sock_port = 5939 };
  source = tcp (bytes "127.0.0.1:5037");
  exposed = all;
  token = none;
  expires_after = none;
  ports = [];
}

start_share-IsStarted_example :
    IsStarted network
      (λ share.
        IsSafe
          (requested none (bytes "emulator" ∷ []) false none [] (share_config idle adb))
          true
          share
        × Exposes false (bytes "emulator" ∷ []) share)
      idle.share
      (start_share network tasks adb none (bytes "emulator" ∷ []) false true none [] idle)
start_share-IsStarted_example =
    start_share-IsStarted network tasks adb none (bytes "emulator" ∷ []) false true none [] idle
      (λ n w. refl)
