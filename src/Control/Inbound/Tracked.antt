-- ===== src/Control/Inbound/Tracked.antt =====
-- transport/control_server.rs: what the requests on the inbound slot keep.
use dial_f.Prelude.{
  ℕ, ◌≡◌, arith, refl, sym, ap, ◌∙◌, true, false, not, Option, none, some, List, [], keep,
  Bool-cases, inl, inr, ◌==◌,
}
use dial_f.Prelude.Outcome.{Result, ok, err}
use dial_f.Prelude.Text.{Text, bytes}
use dial_f.Daemon.{DaemonState, clear_overrides}
use dial_f.Control.{AutoanswerValue, ControlError, Files, ◌>>=◌, ◌>>◌, lift, modify, gets}
use dial_f.Control.Validation.{JobMap, transpose, validate_record_dir, validate_autoanswer}
use dial_f.Control.Overrides.{store, announce, overrides_json, override_set}
use dial_f.Control.Inbound.{
  acquire_serve, release_serve, next_serve_token, open_serve, begin_serve, start_serve, end_serve,
}
use dial_f.Control.Inbound.Picture.{Running, leave, serve_beside, Serving, Picture, settled, joined}
use dial_f.Control.Inbound.Registered.{
  register_numbers, register_all_lem, register_numbers-Owned, keep-Owned,
}

-- The token of the running session goes with the session of the description: the numbers of the
-- session are registered, and no others.
abbrev pub Tracks : Option ℕ → Option Serving → DaemonState → Type 0
Tracks none none st = (st.serve_busy ≡ false) × (st.overrides ≡ [])
Tracks (some t) (some s) st =
    (st.serve_busy ≡ true)
    × (st.overrides
        ≡ register_numbers s.numbers (record { token = t; path = s.path; device = s.device }) [])
Tracks t s st = ⊥

-- The settings of the daemon, and the override of the jobs.
abbrev pub Matches : Option Text → List (Text × Option Text) → Picture → Running → Type 0
Matches base config p c =
    Tracks c.0 p.serving c.1
    × (c.1.runtime_autoanswer ≡ p.jobs)
    × (c.1.config_dir ≡ base)
    × (c.1.config_autoanswer ≡ config)

-- What an override request leaves alone.
abbrev Beside : DaemonState → DaemonState → Type 0
Beside st st' =
    (st'.serve_busy ≡ st.serve_busy)
    × (st'.overrides ≡ st.overrides)
    × (st'.config_dir ≡ st.config_dir)
    × (st'.config_autoanswer ≡ st.config_autoanswer)

pub Tracks-Beside :
    (t : Option ℕ) (s : Option Serving) (st st' : DaemonState)
    → Beside st st'
    → Tracks t s st
    → Tracks t s st'
Tracks-Beside none none st st' b h = (b.0 ∙ h.0, b.1 ∙ h.1)
Tracks-Beside (some t) (some s) st st' b h = (b.0 ∙ h.0, b.1 ∙ h.1)
Tracks-Beside none (some s) st st' b h = absurd h
Tracks-Beside (some t) none st st' b h = absurd h

stored-Beside :
    (ds : Result ControlError (Option Text)) (js : Result ControlError (Option JobMap))
    (st st' : DaemonState)
    → ((do
      dir ← lift ds
      jobs ← lift js
      modify (λ s. announce (bytes "override set: ") (store dir jobs s))
      gets (overrides_json {R = Unit {0}}))
        st).1
      ≡ st'
    → Beside st st' × (st'.runtime_autoanswer ≡ settled ds js st.runtime_autoanswer)
unfolding settled announce
stored-Beside (err e) js st st' h = rw (sym h) ((refl, refl, refl, refl), refl)
stored-Beside (ok d) (err e) st st' h = rw (sym h) ((refl, refl, refl, refl), refl)
stored-Beside (ok d) (ok j) st st' h = rw (sym h) ((refl, refl, refl, refl), refl)

pub override_set-Beside :
    (files : Files) (dir : Option Text) (jobs : Option (List (Text × Option AutoanswerValue)))
    (st st' : DaemonState)
    → (override_set {R = Unit {0}} files dir jobs st).1 ≡ st'
    → Beside st st'
      × (st'.runtime_autoanswer
          ≡ settled
              (transpose (validate_record_dir files) dir)
              (transpose (validate_autoanswer files) jobs)
              st.runtime_autoanswer)
unfolding override_set settled
override_set-Beside files none none st st' h = rw (sym h) ((refl, refl, refl, refl), refl)
override_set-Beside files (some d) jobs st st' h =
    stored-Beside _ (transpose (validate_autoanswer files) jobs) st st' h
override_set-Beside files none (some js) st st' h = stored-Beside (ok none) _ st st' h

pub leave-Tracks :
    (t : Option ℕ) (s : Option Serving) (st : DaemonState)
    → Tracks t s st
    → Tracks (leave t st).0 none (leave t st).1
unfolding leave end_serve release_serve clear_overrides
leave-Tracks none none st h = h
leave-Tracks (some t) (some s) st h = (
  refl,
  ap (λ m. keep (λ e. not (e.1.token == t)) m) h.1
      ∙ keep-Owned t _ (register_numbers-Owned s.numbers _ [] t (ground arith) tt),
)
leave-Tracks none (some s) st h = absurd h
leave-Tracks (some t) none st h = absurd h

pub leave-state :
    (t : Option ℕ) (st : DaemonState)
    → ((leave t st).1.runtime_autoanswer ≡ st.runtime_autoanswer)
      × ((leave t st).1.config_dir ≡ st.config_dir)
      × ((leave t st).1.config_autoanswer ≡ st.config_autoanswer)
unfolding leave end_serve release_serve clear_overrides
leave-state none st = (refl, refl, refl)
leave-state (some t) st = (refl, refl, refl)

pub serve-Tracks :
    (numbers : List Text) (path : Text) (device : Option Text) (t : Option ℕ) (s : Option Serving)
    (st : DaemonState)
    → Tracks t s st
    → let c = serve_beside t (start_serve numbers path device st) in
      Tracks c.0 (joined (record { numbers = numbers; path = path; device = device }) s) c.1
unfolding serve_beside start_serve acquire_serve begin_serve open_serve next_serve_token joined
serve-Tracks numbers path device none none st h = rw (h.0, register_all_lem) (refl, rw h.1 refl)
serve-Tracks numbers path device (some t) (some s) st h = rw h.0 (refl, h.1)
serve-Tracks numbers path device none (some s) st h = absurd h
serve-Tracks numbers path device (some t) none st h = absurd h

pub serve-state :
    (numbers : List Text) (path : Text) (device : Option Text) (t : Option ℕ) (st : DaemonState)
    → let c = serve_beside t (start_serve numbers path device st) in
      (c.1.runtime_autoanswer ≡ st.runtime_autoanswer)
      × (c.1.config_dir ≡ st.config_dir)
      × (c.1.config_autoanswer ≡ st.config_autoanswer)
unfolding serve_beside start_serve acquire_serve begin_serve open_serve next_serve_token
serve-state numbers path device t st = elim (Bool-cases st.serve_busy) [
  | inl e ↦ rw e (refl, refl, refl)
  | inr e ↦ rw (e, register_all_lem) (refl, refl, refl)
]
