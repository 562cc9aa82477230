-- ===== src/Jobs/Phone/Tracking.antt =====
-- phone.rs: the times of a call, on a clock that never runs backwards.
use dial_f.Prelude.{
  ℕ, zero, suc, ◌≤◌, ◌≡◌, refl, Bool, true, false, Option, none, some, Bool-cases, inl, inr, leb,
  ◌||◌, arith,
}
use dial_f.Prelude.Outcome.{Result}
use dial_f.Prelude.Text.{Text}
use dial_f.Protocol.{CallState, Action, dial, answer, hangup, active, dialing, ringing, call_ended}
use dial_f.Audio.Turn.{TurnConfig}
use dial_f.Daemon.{DaemonState}
use dial_f.Jobs.Call
use dial_f.Jobs.Track.{CallTrack, IoError, Tasks, Engine, PhoneIo, first_time, CallEnd, completed}
use dial_f.Jobs.Call.{
  mark_active, close_call, note_over, see, set_world, by_engine, begin_call, enter_call, leave_call,
}
use dial_f.Jobs.Phone.{
  poll_ms, after_cmd, cmd, do_dial, do_answer, do_hangup, give_up, next_round, poll, wait_rounds,
  sleep_rounds,
}
use dial_f.Jobs.Phone.Waiting.{IsForward}

-- A time that is not known, or is at most another one.
abbrev pub Before : Option ℕ → Option ℕ → Type 0
Before none b = Unit {0}
Before (some a) none = Unit {0}
Before (some a) (some b) = a ≤ b

-- The call began before it was answered and before it ended, and nothing of that is in the future.
abbrev pub IsTimed : CallTrack → ℕ → Type 0
IsTimed c now =
    Before c.began c.answered
    × Before c.began c.ended
    × Before c.began (some now)
    × Before c.answered (some now)
    × Before c.ended (some now)

Before-later : (o : Option ℕ) (a b : ℕ) → a ≤ b → Before o (some a) → Before o (some b)
Before-later none a b h p = tt
Before-later (some t) a b h p = omega arith

IsTimed-later : (c : CallTrack) (a b : ℕ) → a ≤ b → IsTimed c a → IsTimed c b
IsTimed-later c a b h (p, q, r, s, t) = (
  p,
  q,
  Before-later c.began a b h r,
  Before-later c.answered a b h s,
  Before-later c.ended a b h t,
)

Before-first :
    (o p : Option ℕ) (now : ℕ) → Before o p → Before o (some now) → Before o (first_time p now)
unfolding first_time
Before-first o none now h k = k
Before-first o (some t) now h k = h

Before-now : (p : Option ℕ) (now : ℕ) → Before p (some now) → Before (first_time p now) (some now)
unfolding first_time
Before-now none now h = omega arith
Before-now (some t) now h = h

module _ {Session : Type 0} where
  abbrev pub Timed : PhoneIo Session → Type 0
  Timed io = IsTimed io.call io.world.now

  mark_active-Timed : (b : Bool) (io : PhoneIo Session) → Timed io → Timed (mark_active b io)
  unfolding mark_active
  mark_active-Timed false io t = t
  mark_active-Timed true io (p, q, r, s, t) = (
    Before-first io.call.began io.call.answered io.world.now p r,
    q,
    r,
    Before-now io.call.answered io.world.now s,
    t,
  )

  close_call-Timed :
      (why : CallEnd) (o : Option ℕ) (io : PhoneIo Session) → Timed io → Timed (close_call why o io)
  unfolding close_call
  close_call-Timed why (some e) io t = t
  close_call-Timed why none io (p, q, r, s, t) = (p, r, r, s, omega arith)

  note_over-Timed : (b : Bool) (io : PhoneIo Session) → Timed io → Timed (note_over b io)
  unfolding note_over
  note_over-Timed false io t = t
  note_over-Timed true io t = close_call-Timed _ io.call.ended io t

  pub call_ended-Timed : (io : PhoneIo Session) → Timed io → Timed (Call.call_ended io).1
  unfolding Call.call_ended
  call_ended-Timed io t = note_over-Timed _ (see _ (mark_active _ io)) (mark_active-Timed _ io t)

-- No effect of the engine turns the clock back.
pub record IsSteady {Session : Type 0} (engine : Engine Session) : Type 0 where
  pub play_file :
      (f : Text) (b : DaemonState → Bool) (s : Option Session) (w : DaemonState)
      → w.now ≤ (engine.play_file f b s w).1.1.now
  pub wait_for_speech :
      (t : TurnConfig) (b : DaemonState → Bool) (s : Option Session) (w : DaemonState)
      → w.now ≤ (engine.wait_for_speech t b s w).1.1.now
  pub wait_for_speech_start :
      (x y z : ℕ) (b : DaemonState → Bool) (s : Option Session) (w : DaemonState)
      → w.now ≤ (engine.wait_for_speech_start x y z b s w).1.1.now

module _ {Session : Type 0} (engine : Engine Session) (tasks : Tasks)
    (forward : IsForward tasks) where
  elapse-Timed :
      (n : ℕ) (w : DaemonState) (io : PhoneIo Session)
      → w.now ≡ io.world.now
      → Timed io
      → Timed (set_world (tasks.elapse n w) io)
  elapse-Timed n w io e t =
      IsTimed-later io.call io.world.now (tasks.elapse n w).now (omega (arith, forward n w)) t

  pub cmd-Timed : (a : Action) (io : PhoneIo Session) → Timed io → Timed (cmd engine tasks a io).1
  unfolding cmd after_cmd
  cmd-Timed a io t = elapse-Timed 0 _ io refl t

  pub do_dial-Timed :
      (n : Text) (io : PhoneIo Session) → Timed io → Timed (do_dial engine tasks n io).1
  unfolding do_dial
  do_dial-Timed n io t = cmd-Timed (dial n none) (begin_call n io) (tt, tt, omega arith, tt, tt)

  pub do_answer-Timed : (io : PhoneIo Session) → Timed io → Timed (do_answer engine tasks io).1
  unfolding do_answer
  do_answer-Timed io t = cmd-Timed (answer none) (enter_call io) t

  pub do_hangup-Timed : (io : PhoneIo Session) → Timed io → Timed (do_hangup engine tasks io).1
  unfolding do_hangup
  do_hangup-Timed io t =
      let io1 = close_call completed io.call.ended io in
      cmd-Timed (hangup none) (leave_call io1) (close_call-Timed completed io.call.ended io t)

  give_up-Timed : (io : PhoneIo Session) → Timed io → Timed (give_up engine tasks io)
  unfolding give_up
  give_up-Timed io (p, q, r, s, t) = (p, r, r, s, omega arith)

  next_round-Timed :
      (deadline ms : ℕ) (again : PhoneIo Session → Result IoError (Unit {0}) × PhoneIo Session)
      (io : PhoneIo Session)
      → ((v : PhoneIo Session) → Timed v → Timed (again v).1)
      → Timed io
      → Timed (next_round engine tasks deadline ms again io).1
  unfolding next_round
  next_round-Timed deadline ms again io next t = elim (Bool-cases (leb deadline io.world.now)) [
    | inl e ↦ rw e (give_up-Timed io t)
    | inr e ↦ rw e (next _ (elapse-Timed poll_ms io.world io refl t))
  ]

  poll-Timed :
      (deadline ms : ℕ)
      (again : Bool → PhoneIo Session → Result IoError (Unit {0}) × PhoneIo Session) (seen : Bool)
      (state : Option CallState) (io : PhoneIo Session)
      → ((b : Bool) (v : PhoneIo Session) → Timed v → Timed (again b v).1)
      → Timed io
      → Timed (poll engine tasks deadline ms again seen state io).1
  unfolding poll
  poll-Timed deadline ms again seen (some active) io next t = mark_active-Timed true io t
  poll-Timed deadline ms again true none io next t = give_up-Timed io t
  poll-Timed deadline ms again false none io next t =
      next_round-Timed deadline ms (again false) io (next false) t
  poll-Timed deadline ms again seen (some dialing) io next t =
      next_round-Timed deadline ms (again true) io (next true) t
  poll-Timed deadline ms again seen (some ringing) io next t =
      next_round-Timed deadline ms (again true) io (next true) t
  poll-Timed deadline ms again seen (some call_ended) io next t =
      next_round-Timed deadline ms (again true) io (next true) t

  pub wait_rounds-Timed :
      (fuel deadline ms : ℕ) (seen : Bool) (io : PhoneIo Session)
      → Timed io
      → Timed (wait_rounds engine tasks fuel deadline ms seen io).1
  unfolding wait_rounds
  wait_rounds-Timed zero deadline ms seen io t = t
  wait_rounds-Timed (suc fuel) deadline ms seen io t = elim (Bool-cases (Call.cancelled io)) [
    | inl e ↦ rw e (do_hangup-Timed io t)
    | inr e ↦ rw e (
        poll-Timed deadline ms (wait_rounds engine tasks fuel deadline ms) seen _ io
          (wait_rounds-Timed fuel deadline ms) t)
  ]

  pub sleep_rounds-Timed :
      (fuel deadline : ℕ) (io : PhoneIo Session)
      → Timed io
      → Timed (sleep_rounds engine tasks fuel deadline io).1
  unfolding sleep_rounds
  sleep_rounds-Timed zero deadline io t = t
  sleep_rounds-Timed (suc fuel) deadline io t =
      elim (Bool-cases (leb deadline io.world.now || io.force io.world)) [
        | inl e ↦ rw (e, sleep_rounds) t
        | inr e ↦
            rw (e, sleep_rounds)
              (sleep_rounds-Timed fuel deadline _ (elapse-Timed _ io.world io refl t))
      ]

  pub by_engine-Timed :
      {A : Type 0} (r : Result Text A × (Option Session × DaemonState)) (io : PhoneIo Session)
      → io.world.now ≤ r.1.1.now
      → Timed io
      → Timed (by_engine r io).1
  unfolding by_engine
  by_engine-Timed (r, (s, w)) io h t = IsTimed-later io.call io.world.now w.now h t
