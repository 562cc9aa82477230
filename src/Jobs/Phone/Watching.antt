-- ===== src/Jobs/Phone/Watching.antt =====
-- phone.rs: when a job learns that its call is over.
use dial_f.Prelude.{
  ℕ, ◌≡◌, refl, ap, ◌∙◌, Bool, true, false, ◌&&◌, ◌||◌, Option, none, some, List, [], ◌∷◌, exists,
}
use dial_f.Protocol.{CallState, active, dialing, ringing, call_ended}
use dial_f.Daemon.{DaemonState}
use dial_f.Jobs.Track.{PhoneIo, call_of, is_active, call_ended_decision, far_end_hangup}
use dial_f.Jobs.Call.{call_state, mark_active, note_over, close_call, see, set_world}
use dial_f.Jobs.Call

abbrev pub is_gone : Option CallState → Bool
is_gone none = true
is_gone (some s) = false

decision-calm :
    (saw : Bool) (s : Option CallState)
    → call_ended_decision true saw s ≡ (is_gone s && saw, is_active s || saw)
unfolding call_ended_decision
decision-calm saw (some active) = refl
decision-calm true none = refl
decision-calm false none = refl
decision-calm saw (some dialing) = refl
decision-calm saw (some ringing) = refl
decision-calm saw (some call_ended) = refl

module _ {Session : Type 0} where
  -- The checks between the steps of a job, each on the state of the daemon at that time, the newest
  -- first.
  abbrev pub watch : List DaemonState → PhoneIo Session → PhoneIo Session
  watch [] io = io
  watch (w ∷ ws) io = (Call.call_ended (set_world w (watch ws io))).1

  -- What stays as it was while a job watches its call.
  abbrev SameCall : PhoneIo Session → PhoneIo Session → Type 0
  SameCall io io' = (io'.device_id ≡ io.device_id) × (io'.in_call ≡ io.in_call)

  note_over-SameCall : (b : Bool) (io : PhoneIo Session) → SameCall io (note_over b io)
  unfolding note_over
  note_over-SameCall false io = (refl, refl)
  note_over-SameCall true io = closed io.call.ended
    where
      closed : (o : Option ℕ) → SameCall io (close_call far_end_hangup o io)
      closed none = unfold close_call in (refl, refl)
      closed (some t) = unfold close_call in (refl, refl)

  note_over-saw : (b : Bool) (io : PhoneIo Session) → (note_over b io).saw_active ≡ io.saw_active
  unfolding note_over
  note_over-saw false io = refl
  note_over-saw true io = closed io.call.ended
    where
      closed : (o : Option ℕ) → (close_call far_end_hangup o io).saw_active ≡ io.saw_active
      closed none = unfold close_call in refl
      closed (some t) = unfold close_call in refl

  mark_active-SameCall : (b : Bool) (io : PhoneIo Session) → SameCall io (mark_active b io)
  unfolding mark_active
  mark_active-SameCall false io = (refl, refl)
  mark_active-SameCall true io = (refl, refl)

  call_ended-SameCall : (io : PhoneIo Session) → SameCall io (Call.call_ended io).1
  unfolding Call.call_ended
  call_ended-SameCall io =
      let d = call_ended_decision io.in_call io.saw_active (call_state io) in
      let io1 = mark_active (is_active (call_state io)) io in
      let a = mark_active-SameCall (is_active (call_state io)) io in
      let b = note_over-SameCall d.0 (see d.1 io1) in (b.0 ∙ a.0, b.1 ∙ a.1)

  call_ended-saw :
      (io : PhoneIo Session)
      → (Call.call_ended io).1.saw_active
        ≡ (call_ended_decision io.in_call io.saw_active (call_state io)).1
  unfolding Call.call_ended
  call_ended-saw io =
      let d = call_ended_decision io.in_call io.saw_active (call_state io) in
      note_over-saw d.0 (see d.1 (mark_active (is_active (call_state io)) io))

  watch-SameCall : (ws : List DaemonState) (io : PhoneIo Session) → SameCall io (watch ws io)
  watch-SameCall [] io = (refl, refl)
  watch-SameCall (w ∷ ws) io =
      let a = call_ended-SameCall (set_world w (watch ws io)) in
      let b = watch-SameCall ws io in (a.0 ∙ b.0, a.1 ∙ b.1)

  -- The call of the job's phone, as a state of the daemon has it.
  abbrev pub call_in : PhoneIo Session → DaemonState → Option CallState
  call_in io w = call_of io.device_id w.registry

  decided :
      (w : DaemonState) (io v : PhoneIo Session) (saw : Bool)
      → v.in_call ≡ true
      → v.saw_active ≡ saw
      → v.device_id ≡ io.device_id
      → call_ended_decision v.in_call v.saw_active (call_state (set_world w v))
        ≡ (is_gone (call_in io w) && saw, is_active (call_in io w) || saw)
  unfolding call_state
  decided w io v saw c s d =
      ap (λ b. call_ended_decision b v.saw_active (call_of v.device_id w.registry)) c
      ∙ (ap (λ b. call_ended_decision true b (call_of v.device_id w.registry)) s
          ∙ (ap (λ i. call_ended_decision true saw (call_of i w.registry)) d
              ∙ decision-calm saw (call_in io w)))

  watch-saw :
      (ws : List DaemonState) (io : PhoneIo Session)
      → io.in_call ≡ true
      → io.saw_active ≡ false
      → (watch ws io).saw_active ≡ exists (λ w. is_active (call_in io w)) ws
  watch-saw [] io c s = s
  watch-saw (w ∷ ws) io c s =
      let same = watch-SameCall ws io in
      call_ended-saw (set_world w (watch ws io))
      ∙ ap (λ p. p.1)
          (decided w io (watch ws io) (exists (λ w. is_active (call_in io w)) ws) (same.1 ∙ c)
            (watch-saw ws io c s) same.0)

  -- A job that has just placed or answered a call learns that it is over exactly when the phone has
  -- no call any more and was seen in the call at an earlier check, whatever the checks in between saw.
  pub watch-over :
      (w : DaemonState) (ws : List DaemonState) (io : PhoneIo Session)
      → io.in_call ≡ true
      → io.saw_active ≡ false
      → (Call.call_ended (set_world w (watch ws io))).0
        ≡ (is_gone (call_in io w) && exists (λ v. is_active (call_in io v)) ws)
  unfolding Call.call_ended
  watch-over w ws io c s =
      let same = watch-SameCall ws io in
      ap (λ p. p.0)
        (decided w io (watch ws io) (exists (λ w. is_active (call_in io w)) ws) (same.1 ∙ c)
          (watch-saw ws io c s) same.0)
