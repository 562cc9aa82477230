-- ===== src/Jobs/Phone.antt =====
-- phone.rs: the effects of a job on a connected phone, each with the state of the job and of the
-- daemon.
pub mod Waiting
pub mod Tracking
pub mod Summary
pub mod Begun
pub mod Watching
mod Examples
use dial_f.Prelude.{
  ℕ, zero, suc, ◌+◌, ◌-◌, ◌*◌, ◌/◌, min, max, Bool, true, false, not, ◌||◌, Option, none, some,
  List, [], ◌∷◌, ◌++◌, if◌then◌else◌, leb,
}
use dial_f.Prelude.Outcome.{Result, ok, err}
use dial_f.Prelude.Text.{Text, bytes, contains}
use dial_f.Audio.Turn.{TurnConfig, EndReason}
use dial_f.Jobs.Runner.{JobIo}
use dial_f.Protocol.{CallState, active, Action, dial, answer, hangup, send_sms}
use dial_f.Phones.Hub.{Hub}
use dial_f.Phones.Hub.Sending.{
  CommandError, not_connected, channel_closed, phone_reported, timed_out, ack_dropped, command,
}
use dial_f.Phones.Registry.{Registry, get}
use dial_f.Daemon.{DaemonState}
use dial_f.Jobs.Track.{
  Engine, IoError, PhoneIo, Tasks, cancelled_waiting, command_failed, completed, ended_unanswered,
  gone_already, lifted, no_answer, out_of_fuel, unanswered,
}
use dial_f.Jobs.Call.{
  begin_call, by_engine, call_ended, call_state, cancelled, close_call, enter_call, leave_call,
  mark_active, now_ms, set_world,
}

-- How often a wait for an answer polls, and a sleep for `force`.
abbrev pub poll_ms : ℕ
poll_ms = 150

abbrev pub nap_ms : ℕ
nap_ms = 50

module _ {Session : Type 0} (engine : Engine Session) (tasks : Tasks) where
  -- The world after a command, which has changed the hub.
  unfoldable pub after_cmd :
      Result CommandError (Unit {0}) × Hub
      → PhoneIo Session
      → Result IoError (Unit {0}) × PhoneIo Session
  after_cmd (r, h) io =
      (lifted command_failed r, set_world (tasks.elapse 0 (record io.world { hub = h })) io)

  -- PhoneJobIo::cmd
  unfoldable pub cmd : Action → PhoneIo Session → Result IoError (Unit {0}) × PhoneIo Session
  unfolding command after_cmd
  cmd action io = after_cmd (command io.device_id action (tasks.on_hub io.world) io.world.hub) io

  -- JobIo for PhoneJobIo, effect by effect.
  unfoldable pub do_dial : Text → PhoneIo Session → Result IoError (Unit {0}) × PhoneIo Session
  unfolding cmd
  do_dial number io = cmd (dial number none) (begin_call number io)

  unfoldable pub do_answer : PhoneIo Session → Result IoError (Unit {0}) × PhoneIo Session
  unfolding cmd
  do_answer io = cmd (answer none) (enter_call io)

  unfoldable pub do_hangup : PhoneIo Session → Result IoError (Unit {0}) × PhoneIo Session
  unfolding cmd gone_already close_call
  do_hangup io =
      let (r, io1) = cmd (hangup none) (leave_call (close_call completed io.call.ended io)) in
      (gone_already r, io1)

  unfoldable pub do_send_sms :
      Text → Text → PhoneIo Session → Result IoError (Unit {0}) × PhoneIo Session
  unfolding cmd
  do_send_sms to body io = cmd (send_sms to body) io

  -- The call was not answered.
  unfoldable pub give_up : PhoneIo Session → PhoneIo Session
  give_up io = record io {
    call = record io.call { ended = some io.world.now; end_reason = some no_answer };
  }

  -- The end of a round: the deadline, and the sleep before the next round.
  unfoldable pub next_round :
      ℕ
      → ℕ
      → (PhoneIo Session → Result IoError (Unit {0}) × PhoneIo Session)
      → PhoneIo Session
      → Result IoError (Unit {0}) × PhoneIo Session
  unfolding give_up
  next_round deadline timeout_ms again io =
      if leb deadline io.world.now
      then (err (unanswered timeout_ms), give_up io)
      else again (set_world (tasks.elapse poll_ms io.world) io)

  -- A round, by the state of the call; `seen` tells whether there was a call in an earlier one.
  unfoldable pub poll :
      ℕ
      → ℕ
      → (Bool → PhoneIo Session → Result IoError (Unit {0}) × PhoneIo Session)
      → Bool
      → Option CallState
      → PhoneIo Session
      → Result IoError (Unit {0}) × PhoneIo Session
  unfolding next_round give_up mark_active
  poll deadline timeout_ms again seen (some active) io = (ok tt, mark_active true io)
  poll deadline timeout_ms again true none io = (err ended_unanswered, give_up io)
  poll deadline timeout_ms again false none io = next_round deadline timeout_ms (again false) io
  poll deadline timeout_ms again seen (some other) io =
      next_round deadline timeout_ms (again true) io

  unfoldable pub wait_rounds :
      ℕ → ℕ → ℕ → Bool → PhoneIo Session → Result IoError (Unit {0}) × PhoneIo Session
  unfolding cancelled do_hangup call_state poll
  wait_rounds zero deadline timeout_ms seen io = (err out_of_fuel, io)
  wait_rounds (suc fuel) deadline timeout_ms seen io =
      let again =
        λ (seen' : Bool) (v : PhoneIo Session). wait_rounds fuel deadline timeout_ms seen' v in
      if cancelled io
      then (err cancelled_waiting, (do_hangup io).1)
      else poll deadline timeout_ms again seen (call_state io) io

  unfoldable pub wait_for_answer : ℕ → PhoneIo Session → Result IoError (Unit {0}) × PhoneIo Session
  unfolding wait_rounds
  wait_for_answer timeout_ms io =
      wait_rounds (timeout_ms + 2) (io.world.now + timeout_ms) timeout_ms false io

  unfoldable pub sleep_rounds :
      ℕ → ℕ → PhoneIo Session → Result IoError (Unit {0}) × PhoneIo Session
  sleep_rounds zero deadline io = (err out_of_fuel, io)
  sleep_rounds (suc fuel) deadline io = elim (leb deadline io.world.now || io.force io.world) [
    | true ↦ (ok tt, io)
    | false ↦
        sleep_rounds fuel deadline
          (set_world (tasks.elapse (min (deadline - io.world.now) nap_ms) io.world) io)
  ]

  unfoldable pub do_sleep : ℕ → PhoneIo Session → Result IoError (Unit {0}) × PhoneIo Session
  unfolding sleep_rounds
  do_sleep ms io = sleep_rounds (ms + 1) (io.world.now + ms) io

  abbrev pub phone_io : JobIo (PhoneIo Session) IoError
  phone_io = record {
    play = λ file io. by_engine (engine.play_file file io.force io.session io.world) io;
    wait_for_speech =
        λ turn io. by_engine (engine.wait_for_speech turn io.cancel io.session io.world) io;
    wait_for_speech_start = λ timeout_ms after_ms onset_ms io.
        by_engine
          (engine.wait_for_speech_start timeout_ms after_ms onset_ms io.cancel io.session io.world)
          io;
    dial = do_dial;
    wait_for_answer = wait_for_answer;
    answer = do_answer;
    hangup = do_hangup;
    send_sms = do_send_sms;
    sleep = do_sleep;
    log_line = λ message io. io;
    call_ended = call_ended;
    inbound_mode = λ io. io.inbound;
    cancelled = λ io. (cancelled io, io);
    now_ms = λ io. (now_ms engine io, io);
  }
