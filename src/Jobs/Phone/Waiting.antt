-- ===== src/Jobs/Phone/Waiting.antt =====
-- phone.rs: the waits of a job end.
use dial_f.Prelude.{
  ℕ, zero, suc, ◌+◌, ◌-◌, ◌≤◌, ◌<◌, ◌≡◌, refl, min, Bool, true, false, ◌||◌, Option, none, some,
  Bool-cases, inl, inr, leb, arith, leb→le,
}
use dial_f.Prelude.Outcome.{Result, ok, err}
use dial_f.Protocol.{CallState, active, dialing, ringing, call_ended}
use dial_f.Daemon.{DaemonState}
use dial_f.Jobs.Track.{
  no_answer, IoError, cancelled_waiting, ended_unanswered, unanswered, out_of_fuel, command_failed,
  engine_failed, Tasks, Engine, PhoneIo, first_time,
}
use dial_f.Jobs.Call.{mark_active, call_state, cancelled, set_world}
use dial_f.Jobs.Phone.{
  do_hangup, give_up, next_round, poll, poll_ms, nap_ms, wait_rounds, wait_for_answer, sleep_rounds,
  do_sleep,
}

-- A wait of n milliseconds takes at least as long.
abbrev pub IsForward : Tasks → Type 0
IsForward tasks = (n : ℕ) (w : DaemonState) → w.now + n ≤ (tasks.elapse n w).now

module _ {Session : Type 0} (engine : Engine Session) (tasks : Tasks) where
  -- The world when a wait has polled `n` times, and the job with it.
  unfoldable pub later : ℕ → DaemonState → DaemonState
  later zero w = w
  later (suc n) w = tasks.elapse poll_ms (later n w)

  abbrev pub at_poll : ℕ → PhoneIo Session → PhoneIo Session
  at_poll n start = set_world (later n start.world) start

  -- The phone reported a call, in some state, when it was polled before the n-th time.
  abbrev pub SawCall : ℕ → PhoneIo Session → Type 0
  SawCall n start = (k : ℕ) × (s : CallState) × (k < n) × (call_state (at_poll k start) ≡ some s)

  abbrev Seen : Bool → ℕ → PhoneIo Session → Type 0
  Seen true n start = SawCall n start
  Seen false n start = Unit {0}

  -- How a wait for an answer may end that begins in `start`, at or behind its deadline.
  abbrev pub Waited : ℕ → PhoneIo Session → Result IoError (Unit {0}) × PhoneIo Session → Type 0
  Waited deadline start (ok u, io) =
      (call_state io ≡ some active) × ((t : ℕ) × (io.call.answered ≡ some t))
  Waited deadline start (err cancelled_waiting, io) =
      (n : ℕ) × (cancelled (at_poll n start) ≡ true)
      × (io ≡ (do_hangup engine tasks (at_poll n start)).1)
  Waited deadline start (err ended_unanswered, io) =
      (n : ℕ) × (io.world ≡ later n start.world)
      × (call_state (at_poll n start) ≡ none)
      × SawCall n start
      × (call_state io ≡ none)
      × (io.call.ended ≡ some io.world.now)
      × (io.call.end_reason ≡ some no_answer)
  Waited deadline start (err (unanswered ms), io) =
      (deadline ≤ io.world.now)
      × (io.call.ended ≡ some io.world.now)
      × (io.call.end_reason ≡ some no_answer)
  Waited deadline start (err out_of_fuel, io) = ⊥
  Waited deadline start (err (command_failed e), io) = ⊥
  Waited deadline start (err (engine_failed m), io) = ⊥

  first_time-some : (o : Option ℕ) (now : ℕ) → (t : ℕ) × (first_time o now ≡ some t)
  unfolding first_time
  first_time-some none now = (now, refl)
  first_time-some (some t) now = (t, refl)

  next_round-Waited :
      (deadline ms n : ℕ) (again : PhoneIo Session → Result IoError (Unit {0}) × PhoneIo Session)
      (start : PhoneIo Session)
      → (leb deadline (at_poll n start).world.now ≡ false
          → Waited deadline start (again (at_poll (suc n) start)))
      → Waited deadline start (next_round engine tasks deadline ms again (at_poll n start))
  unfolding next_round give_up later
  next_round-Waited deadline ms n again start h =
      elim (Bool-cases (leb deadline (later n start.world).now)) [
        | inl e ↦ rw e (leb→le deadline (later n start.world).now e, refl, refl)
        | inr e ↦ rw e (h e)
      ]

  poll-Waited :
      (deadline ms n : ℕ)
      (again : Bool → PhoneIo Session → Result IoError (Unit {0}) × PhoneIo Session) (seen : Bool)
      (state : Option CallState) (start : PhoneIo Session)
      → call_state (at_poll n start) ≡ state
      → Seen seen n start
      → ((b : Bool)
          → leb deadline (at_poll n start).world.now ≡ false
          → Seen b (suc n) start
          → Waited deadline start (again b (at_poll (suc n) start)))
      → Waited deadline start (poll engine tasks deadline ms again seen state (at_poll n start))
  unfolding poll give_up call_state mark_active
  poll-Waited deadline ms n again seen (some active) start e saw h =
      (e, first_time-some start.call.answered (later n start.world).now)
  poll-Waited deadline ms n again true none start e saw h = (n, refl, e, saw, e, refl, refl)
  poll-Waited deadline ms n again false none start e saw h =
      next_round-Waited deadline ms n (again false) start (λ late. h false late tt)
  poll-Waited deadline ms n again seen (some dialing) start e saw h =
      next_round-Waited deadline ms n (again true) start
        (λ late. h true late (n, dialing, omega arith, e))
  poll-Waited deadline ms n again seen (some ringing) start e saw h =
      next_round-Waited deadline ms n (again true) start
        (λ late. h true late (n, ringing, omega arith, e))
  poll-Waited deadline ms n again seen (some call_ended) start e saw h =
      next_round-Waited deadline ms n (again true) start
        (λ late. h true late (n, call_ended, omega arith, e))

  module _ (forward : IsForward tasks) where
    wait_rounds-Waited :
        (fuel deadline ms n : ℕ) (seen : Bool) (start : PhoneIo Session)
        → 0 < fuel
        → deadline + 2 ≤ fuel + (at_poll n start).world.now
        → Seen seen n start
        → Waited deadline start (wait_rounds engine tasks fuel deadline ms seen (at_poll n start))
    unfolding wait_rounds later
    wait_rounds-Waited zero deadline ms n seen start p h saw = absurd (omega arith)
    wait_rounds-Waited (suc fuel) deadline ms n seen start p h saw =
        elim (Bool-cases (cancelled (at_poll n start))) [
          | inl e ↦ rw e (n, e, refl)
          | inr e ↦ rw e (
              poll-Waited deadline ms n (wait_rounds engine tasks fuel deadline ms) seen
                (call_state (at_poll n start)) start refl saw
                (λ b late saw'.
                  wait_rounds-Waited fuel deadline ms (suc n) b start (ground (arith, late))
                    (ground (arith, late, forward poll_ms (later n start.world))) saw'))
        ]

    -- A wait for an answer comes to an end, whatever the phone and the other tasks do while time goes
    -- on: with the call active and the time of the answer noted; or, when the job was cancelled, with
    -- the call hung up; or with the call noted as not answered, because it is gone and an earlier poll
    -- of this wait found it, or because the time is over.
    pub wait_for_answer-Waited :
        (timeout_ms : ℕ) (io : PhoneIo Session)
        → Waited (io.world.now + timeout_ms) io (wait_for_answer engine tasks timeout_ms io)
    unfolding wait_for_answer later
    wait_for_answer-Waited timeout_ms io =
        wait_rounds-Waited (timeout_ms + 2) (io.world.now + timeout_ms) timeout_ms 0 false io
          (omega arith) (omega arith) tt

    -- A sleep is over in time, or because `force` was set.
    abbrev pub Slept : ℕ → Result IoError (Unit {0}) × PhoneIo Session → Type 0
    Slept deadline r = (r.0 ≡ ok tt) × (leb deadline r.1.world.now || r.1.force r.1.world ≡ true)

    sleep_rounds-Slept :
        (fuel deadline : ℕ) (io : PhoneIo Session)
        → 0 < fuel
        → deadline < fuel + io.world.now
        → Slept deadline (sleep_rounds engine tasks fuel deadline io)
    unfolding sleep_rounds
    sleep_rounds-Slept zero deadline io p h = absurd (omega arith)
    sleep_rounds-Slept (suc fuel) deadline io p h =
        elim (Bool-cases (leb deadline io.world.now || io.force io.world)) [
          | inl e ↦ rw (e, sleep_rounds) (refl, e)
          | inr e ↦
              let late : io.world.now < deadline = ground (arith, e) in
              let n = min (deadline - io.world.now) nap_ms in
              rw (e, sleep_rounds)
                (sleep_rounds-Slept fuel deadline (set_world (tasks.elapse n io.world) io)
                  (omega arith) (ground (arith, late, forward n io.world)))
        ]

    pub do_sleep-Slept :
        (ms : ℕ) (io : PhoneIo Session) → Slept (io.world.now + ms) (do_sleep engine tasks ms io)
    unfolding do_sleep
    do_sleep-Slept ms io =
        sleep_rounds-Slept (ms + 1) (io.world.now + ms) io (omega arith) (omega arith)
