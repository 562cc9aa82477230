-- ===== src/Control/Inbound/Refines.antt =====
-- daemon.rs and control_server.rs: who answers an incoming call, after any sequence of sessions and
-- override requests, against a description that knows no tokens.
use dial_f.Prelude.{
  ℕ, ◌≡◌, refl, ap, ◌∙◌, not, ◌&&◌, ◌||◌, Option, none, some, List, [], ◌∷◌, exists, Bool-cases,
  inl, inr, if◌then◌else◌,
}
use dial_f.Prelude.Assoc.{lookup}
use dial_f.Prelude.Text.{Text, text_eq}
use dial_f.Daemon.{
  DaemonState, AutoanswerOverride, InboundJob, answer_only, job_path, job_steps, only_answer,
  run_file, run_steps, resolve_inbound, new_state,
}
use dial_f.Share.Config.Resolved.{ShareConfig}
use dial_f.Control.{Files}
use dial_f.Control.Validation.{JobMap, transpose, validate_record_dir, validate_autoanswer}
use dial_f.Control.Overrides.{announce, override_clear}
use dial_f.Control.Inbound.Picture.{
  Event, client_serves, client_leaves, set_jobs, clear_jobs, Running, run_event, run_events,
  Serving, Picture, settled, picture_event, picture_events, by_job, standing, answer_of,
}
use dial_f.Control.Inbound.Registered.{lookup-register_numbers}
use dial_f.Control.Inbound.Tracked.{
  Tracks, Matches, Tracks-Beside, override_set-Beside, leave-Tracks, leave-state, serve-Tracks,
  serve-state,
}

module _ (base : Option Text) (config : List (Text × Option Text)) (files : Files) where
  run_event-Matches :
      (e : Event) (p : Picture) (t : Option ℕ) (st : DaemonState)
      → Matches base config p (t, st)
      → Matches base config (picture_event files e p) (run_event files e (t, st))
  unfolding run_event picture_event override_clear announce
  run_event-Matches (client_serves numbers path device) p t st h =
      let k = serve-state numbers path device t st in
      (serve-Tracks numbers path device t p.serving st h.0, k.0 ∙ h.1, k.1 ∙ h.2, k.2 ∙ h.3)
  run_event-Matches client_leaves p t st h =
      let k = leave-state t st in (leave-Tracks t p.serving st h.0, k.0 ∙ h.1, k.1 ∙ h.2, k.2 ∙ h.3)
  run_event-Matches (set_jobs dir jobs) p t st h =
      let k = override_set-Beside files dir jobs st _ refl in
      (
        Tracks-Beside t p.serving st _ k.0 h.0,
        k.1
            ∙ ap
                (settled (transpose (validate_record_dir files) dir)
                  (transpose (validate_autoanswer files) jobs))
                h.1,
        k.0.2 ∙ h.2,
        k.0.3 ∙ h.3,
      )
  run_event-Matches (clear_jobs dir jobs) p t st h = (
    Tracks-Beside t p.serving st _ (refl, refl, refl, refl) h.0,
    ap (λ m. if jobs || (not dir && not jobs) then none else m) h.1,
    h.2,
    h.3,
  )

  run_events-Matches :
      (es : List Event) (p : Picture) (c : Running)
      → Matches base config p c
      → Matches base config (picture_events files es p) (run_events files es c)
  unfolding run_events picture_events
  run_events-Matches [] p c h = h
  run_events-Matches (e ∷ es) p c h =
      run_events-Matches es (picture_event files e p) (run_event files e c)
        (run_event-Matches e p c.0 c.1 h)

standing-one :
    (o : Option InboundJob)
    → (elim o [
      | none ↦ none
      | some answer_only ↦ some only_answer
      | some (job_path p) ↦ some (run_file p none)
      | some (job_steps s) ↦ some (run_steps s)
    ])
      ≡ (elim o [ none ↦ none | some j ↦ some (by_job j) ])
unfolding by_job
standing-one none = refl
standing-one (some answer_only) = refl
standing-one (some (job_path p)) = refl
standing-one (some (job_steps s)) = refl

module _ (number : Text) (st : DaemonState) where
  resolved-standing :
      (jobs : Option JobMap)
      → lookup number st.overrides ≡ none
      → st.runtime_autoanswer ≡ jobs
      → resolve_inbound number st ≡ standing st.config_dir st.config_autoanswer jobs number
  unfolding resolve_inbound standing
  resolved-standing none h j = rw (h, j, resolve_inbound) refl
  resolved-standing (some m) h j = rw (h, j, resolve_inbound) (standing-one (lookup number m))

  resolved-served :
      (ov : AutoanswerOverride)
      → lookup number st.overrides ≡ some ov
      → resolve_inbound number st ≡ some (run_file ov.path ov.device)
  unfolding resolve_inbound
  resolved-served ov h = rw (h, resolve_inbound) refl

  resolved :
      (t : Option ℕ) (s : Option Serving) (jobs : Option JobMap)
      → Tracks t s st
      → st.runtime_autoanswer ≡ jobs
      → resolve_inbound number st
        ≡ answer_of st.config_dir st.config_autoanswer (record { serving = s; jobs = jobs }) number
  unfolding answer_of lookup
  resolved none none jobs h j = resolved-standing jobs (ap (lookup number) h.1) j
  resolved (some t) (some s) jobs h j =
      let ov : AutoanswerOverride = record { token = t; path = s.path; device = s.device } in
      let l = ap (lookup number) h.1 ∙ lookup-register_numbers number s.numbers ov [] in
      elim (Bool-cases (exists (λ n. text_eq number n) s.numbers)) [
        | inl e ↦ rw e (resolved-served ov (l ∙ ap (λ b. if b then some ov else none) e))
        | inr e ↦ rw e (resolved-standing jobs (l ∙ ap (λ b. if b then some ov else none) e) j)
      ]
  resolved none (some s) jobs h j = absurd h
  resolved (some t) none jobs h j = absurd h

-- Who answers an incoming call. Take a daemon that has just started, and any sequence of clients that
-- serve numbers, of their leaving, and of requests that set or clear overrides, accepted or refused. A
-- call from a number is then handled as the plain description says: by the session that is being
-- served, when it serves the number, and there is one at a time; else by the job map of the override
-- in force, whole, so that a number it does not list rings on; else by the settings.
pub resolve_inbound-run_events :
    (key : Text) (base : Option Text) (config : List (Text × Option Text)) (dir : Option Text)
    (share : ShareConfig) (markers : List (Text × (Text × Text))) (files : Files) (es : List Event)
    (number : Text)
    → resolve_inbound number
        (run_events files es (none, new_state key base config dir share markers)).1
      ≡ answer_of base config
          (picture_events files es (record { serving = none; jobs = none }))
          number
unfolding new_state
resolve_inbound-run_events key base config dir share markers files es number =
    let p : Picture = picture_events files es (record { serving = none; jobs = none }) in
    let c : Running = run_events files es (none, new_state key base config dir share markers) in
    let m =
      run_events-Matches base config files es (record { serving = none; jobs = none })
        (none, new_state key base config dir share markers) ((refl, refl), refl, refl, refl) in
    resolved number c.1 c.0 p.serving p.jobs m.0 m.1
    ∙ ap (λ b. answer_of b c.1.config_autoanswer p number) m.2
    ∙ ap (λ g. answer_of base g p number) m.3
