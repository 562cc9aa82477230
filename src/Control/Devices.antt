-- ===== src/Control/Devices.antt =====
-- daemon.rs: the requests that go to a phone.
pub mod Stale
use dial_f.Prelude.{ℕ, zero, suc, Bool, false, Option, none, some, List, []}
use dial_f.Prelude.Outcome.{Result, ok, err}
use dial_f.Prelude.Assoc.{lookup, erase}
use dial_f.Prelude.Text.{Text}
use dial_f.Protocol.{Action, answer, dial, list_sms, list_calls, list_sims, mmi, set_voicemail}
use dial_f.Phones.Hub.Sending.{CommandError, command, fire}
use dial_f.Jobs.Track.{Tasks, Engine}
use dial_f.Daemon.{DaemonState}
use dial_f.Control.{
  ControlError, by_command, no_device_reply, play_failed, Payload, no_data, dialed_data,
  messages_data, calls_data, sims_data, mmi_data, voicemail_data, Handler, pure, modify, gets,
  ◌>>=◌, ◌>>◌,
}
use dial_f.Control.Requests.{resolve_device}

-- A device that a request names.
unfoldable pub named_device : Text → Handler Text
unfolding resolve_device
named_device device st = (resolve_device (some device) st, st)

abbrev pub of_command : Result CommandError (Unit {0}) → Result ControlError (Unit {0})
of_command (ok u) = ok u
of_command (err e) = err (by_command e)

-- `.get(&dev).cloned().unwrap_or_default()`
unfoldable pub reported : {A : Type 0} → Text → List (Text × List A) → List A
unfolding lookup
reported dev m = elim (lookup dev m) [ none ↦ [] | some v ↦ v ]

module _ (tasks : Tasks) where
  -- A command, and what it answers.
  unfoldable pub send_command : Text → Action → Handler (Unit {0})
  unfolding command
  send_command device action st =
      let (r, h) = command device action (tasks.on_hub st) st.hub in
      (of_command r, tasks.elapse 0 (record st { hub = h }))

  -- A command that nobody waits for; that it failed is ignored.
  unfoldable pub send_fire : Text → Action → Handler (Unit {0})
  unfolding fire
  send_fire device action st = (ok tt, record st { hub = (fire device action st.hub).1 })

  -- Ask a phone for a report, and read what has come in after 800 ms.
  unfoldable pub ask : {A : Type 0} → Text → Action → (Text → DaemonState → A) → Handler A
  unfolding named_device send_fire
  ask device action read = do
    dev ← named_device device
    send_fire dev action
    modify (tasks.elapse 800)
    gets (read dev)

  -- Half a second at a time, until there is an answer or the rounds are over.
  unfoldable pub await_reply : {A : Type 0} → ℕ → (DaemonState → Option A) → Handler A
  await_reply zero read st = (err no_device_reply, st)
  await_reply (suc rounds) read st =
      let st1 = tasks.elapse 500 st in
      elim (read st1) [ some a ↦ (ok a, st1) | none ↦ await_reply rounds read st1 ]

  module _ {R : Type 0} where
    unfoldable pub call_dial : Text → Text → Option ℕ → Handler (Payload R)
    unfolding named_device send_command
    call_dial device number sim_sub_id = do
      dev ← named_device device
      send_command dev (dial number sim_sub_id)
      pure (dialed_data number sim_sub_id)

    -- The requests whose answer carries nothing.
    unfoldable pub plain_command : Text → Action → Handler (Payload R)
    unfolding named_device send_command
    plain_command device action = do
      dev ← named_device device
      send_command dev action
      pure no_data

    unfoldable pub sms_list : Text → Handler (Payload R)
    unfolding ask reported
    sms_list device = do
      messages ← ask device (list_sms none) (λ dev st. reported dev st.inbox)
      pure (messages_data messages)

    unfoldable pub call_list : Text → Handler (Payload R)
    unfolding ask reported
    call_list device = do
      calls ← ask device list_calls (λ dev st. reported dev st.call_log)
      pure (calls_data calls)

    unfoldable pub sims_list : Text → Handler (Payload R)
    unfolding ask reported
    sims_list device = do
      sims ← ask device list_sims (λ dev st. reported dev st.sims)
      pure (sims_data sims)

    -- `mmi.send`: an earlier answer of the device is dropped first.
    unfoldable pub mmi_send : Text → Text → Option ℕ → Handler (Payload R)
    unfolding named_device send_fire await_reply erase lookup
    mmi_send device code sim_sub_id = do
      dev ← named_device device
      modify (λ st. record st { mmi_results = erase dev st.mmi_results })
      send_fire dev (mmi code sim_sub_id)
      result ← await_reply 30 (λ st. lookup dev st.mmi_results)
      pure (mmi_data result)

    unfoldable pub voicemail_set : Text → Bool → Option Text → Option ℕ → Handler (Payload R)
    unfolding named_device send_fire await_reply erase lookup
    voicemail_set device enabled number sim_sub_id = do
      dev ← named_device device
      modify (λ st. record st { voicemail_results = erase dev st.voicemail_results })
      send_fire dev (set_voicemail enabled number sim_sub_id)
      result ← await_reply 60 (λ st. lookup dev st.voicemail_results)
      pure (voicemail_data result)

-- `audio.play`, which no force interrupts.
unfoldable pub audio_play : {Session R : Type 0} → Engine Session → Text → Handler (Payload R)
audio_play engine file st =
    let (r, (session, st1)) = engine.play_file file (λ w. false) none st in
    elim r [ ok u ↦ (ok no_data, st1) | err e ↦ (err (play_failed e), st1) ]
