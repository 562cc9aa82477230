-- ===== src/Jobs/Call.antt =====
-- phone.rs: a job on a connected phone: how far the call is that it has placed or answered, and what
-- it sums up.
use dial_f.Prelude.{
  ℕ, ◌-◌, ◌*◌, ◌/◌, max, Bool, true, false, ◌||◌, Option, none, some, if◌then◌else◌,
}
use dial_f.Prelude.Outcome.{Result}
use dial_f.Prelude.Text.{Text}
use dial_f.Protocol.{CallState}
use dial_f.Daemon.{DaemonState}
use dial_f.Jobs.Track.{
  CallEnd, CallSummary, IoError, Engine, PhoneIo, first_time, call_of, call_ended_decision, latency,
  is_active, lifted, completed, far_end_hangup, engine_failed,
}

module _ {Session : Type 0} where
  -- PhoneJobIo::new
  unfoldable pub new :
      Text
      → Option Session
      → Bool
      → (cancel force abort : DaemonState → Bool) → DaemonState
      → PhoneIo Session
  new device_id session inbound cancel force abort world = record {
    device_id = device_id;
    session = session;
    in_call = inbound;
    saw_active = false;
    inbound = inbound;
    cancel = cancel;
    force = force;
    abort = abort;
    started = world.now;
    call = record {
      began = if inbound then some world.now else none;
      answered = if inbound then some world.now else none;
      ended = none;
      remote_number = none;
      sim = none;
      end_reason = none;
    };
    world = world;
  }

  unfoldable pub call_state : PhoneIo Session → Option CallState
  unfolding call_of
  call_state io = call_of io.device_id io.world.registry

  -- The summary of a call that began at `b`; an Instant's `duration_since` is 0 where it would be
  -- negative.
  unfoldable pub summary_from : PhoneIo Session → ℕ → CallSummary
  unfolding latency
  summary_from io b =
      let end_at : ℕ = elim io.call.ended [ some t ↦ t | none ↦ io.world.now ] in
      record {
        answer_latency_ms = latency io.inbound io.call.answered b;
        duration_ms = elim io.call.answered [ none ↦ none | some a ↦ some (end_at - a) ];
        call_end = elim io.call.end_reason [ some e ↦ e | none ↦ completed ];
        remote_number = io.call.remote_number;
        sim = io.call.sim;
      }

  unfoldable pub summary_at : PhoneIo Session → Option ℕ → Option CallSummary
  unfolding summary_from
  summary_at io none = none
  summary_at io (some b) = some (summary_from io b)

  unfoldable pub call_summary : PhoneIo Session → Option CallSummary
  unfolding summary_at
  call_summary io = summary_at io io.call.began

  abbrev pub set_world : DaemonState → PhoneIo Session → PhoneIo Session
  set_world w io = record io { world = w }

  -- PhoneJobIo::cancelled
  unfoldable pub cancelled : PhoneIo Session → Bool
  cancelled io = io.cancel io.world || (io.force io.world || io.abort io.world)

  -- An effect of the engine.
  unfoldable pub by_engine :
      {A : Type 0}
      → Result Text A × (Option Session × DaemonState)
      → PhoneIo Session
      → Result IoError A × PhoneIo Session
  by_engine (r, (session, w)) io =
      (lifted engine_failed r, record io { session = session; world = w })

  -- The first sighting of the call as active.
  unfoldable pub mark_active : Bool → PhoneIo Session → PhoneIo Session
  unfolding first_time
  mark_active false io = io
  mark_active true io = record io {
    call = record io.call { answered = first_time io.call.answered io.world.now };
  }

  -- A call is over; `was` says when something said so before.
  unfoldable pub close_call : CallEnd → Option ℕ → PhoneIo Session → PhoneIo Session
  close_call why (some t) io = io
  close_call why none io = record io {
    call = record io.call { ended = some io.world.now; end_reason = some why };
  }

  unfoldable pub note_over : Bool → PhoneIo Session → PhoneIo Session
  unfolding close_call
  note_over false io = io
  note_over true io = close_call far_end_hangup io.call.ended io

  abbrev pub see : Bool → PhoneIo Session → PhoneIo Session
  see saw io = record io { saw_active = saw }

  -- call_ended
  unfoldable pub call_ended : PhoneIo Session → Bool × PhoneIo Session
  unfolding mark_active call_ended_decision note_over call_state
  call_ended io =
      let (over, saw) = call_ended_decision io.in_call io.saw_active (call_state io) in
      (over, note_over over (see saw (mark_active (is_active (call_state io)) io)))

  -- A fresh call, placed or answered, and the end of one.
  abbrev pub enter_call : PhoneIo Session → PhoneIo Session
  enter_call io = record io { in_call = true; saw_active = false }

  abbrev pub begin_call : Text → PhoneIo Session → PhoneIo Session
  begin_call number io = record (enter_call io) {
    call = record io.call {
      began = some io.world.now;
      answered = none;
      ended = none;
      end_reason = none;
      remote_number = some number;
    };
  }

  abbrev pub leave_call : PhoneIo Session → PhoneIo Session
  leave_call io = record io { in_call = false; saw_active = false }

  unfoldable pub now_ms : Engine Session → PhoneIo Session → ℕ
  now_ms engine io = elim io.session [
    | some s ↦ engine.rx_len s io.world * 1000 / max (engine.sample_rate s) 1
    | none ↦ io.world.now - io.started
  ]
