-- ===== src/Control/Dispatch/Refused.antt =====
-- daemon.rs: a request about a phone that is not there.
use dial_f.Prelude.{◌≡◌, refl, ap, Option, none, some}
use dial_f.Prelude.Outcome.{err}
use dial_f.Prelude.Text.{Text}
use dial_f.Protocol.{Action, list_sms, list_calls, list_sims}
use dial_f.Phones.Registry.{get}
use dial_f.Jobs.Track.{Tasks, Engine}
use dial_f.Daemon.{DaemonState}
use dial_f.Control.{
  ControlOp, server_info, server_manifest, devices_list, override_show, call_dial, call_answer,
  call_hangup, call_reject, sms_list, call_list, sims_list, sms_send, mmi_send, voicemail_set,
  audio_play, job_run, autoanswer_serve, override_set, override_clear, job_status, job_cancel,
  share_start, share_devices, share_stop, share_status, ControlError, unknown_device, messages_data,
  calls_data, sims_data, Files, Handler, ◌>>=◌, pure,
}
use dial_f.Control.Requests.{resolve_device}
use dial_f.Control.Runs.{Recorder}
use dial_f.Control.Devices as Devices
use dial_f.Control.Devices.{named_device, plain_command, ask, reported}
use dial_f.Control.Shares.{Network}
use dial_f.Control.Dispatch.{try_handle}

-- The phone that a request is about.
abbrev pub phone_of : ControlOp → Option Text
phone_of (call_dial device number sim) = some device
phone_of (call_answer device) = some device
phone_of (call_hangup device) = some device
phone_of (call_reject device drop_call) = some device
phone_of (sms_send device to body) = some device
phone_of (sms_list device) = some device
phone_of (call_list device) = some device
phone_of (sims_list device) = some device
phone_of (mmi_send device code sim) = some device
phone_of (voicemail_set device enabled number sim) = some device
phone_of _ = none

some-injective : (a b : Text) → some a ≡ some b → a ≡ b
some-injective a b e = ap (λ (o : Option Text). elim o [ none ↦ a | some c ↦ c ]) e

none-some : (b : Text) → none ≡ some b → ⊥
none-some b e = cc

resolve_device-unknown :
    (device d : Text) (st : DaemonState)
    → some device ≡ some d
    → get d st.registry ≡ none
    → resolve_device (some device) st ≡ err unknown_device
unfolding resolve_device
resolve_device-unknown device d st e h = rw (some-injective device d e, h, resolve_device) refl

refused-first :
    {A B : Type 0} (m : Handler A) (f : A → B) (st : DaemonState) (e : ControlError)
    → m st ≡ (err e, st)
    → (m >>= λ a. pure (f a)) st ≡ (err e, st)
refused-first m f st e h = rw (ap (λ r. r.0) h, ap (λ r. r.1) h, ◌>>=◌) refl

ask-unknown :
    {A : Type 0} (tasks : Tasks) (device d : Text) (action : Action) (read : Text → DaemonState → A)
    (st : DaemonState)
    → some device ≡ some d
    → get d st.registry ≡ none
    → ask tasks device action read st ≡ (err unknown_device, st)
unfolding ask named_device
ask-unknown tasks device d action read st e h =
    rw (resolve_device-unknown device d st e h, ◌>>=◌) refl

module _ {Session Recording : Type 0} (files : Files) (net : Network)
    (recorder : Recorder Session Recording) (engine : Engine Session) (tasks : Tasks) where
  -- A request about a phone that is not connected is refused as such, and changes nothing in the
  -- daemon: a call, a message, a list, a code or a voicemail setting, whichever it is.
  pub try_handle-unknown :
      (op : ControlOp) (d : Text) (st : DaemonState)
      → phone_of op ≡ some d
      → get d st.registry ≡ none
      → try_handle files net recorder engine tasks op st ≡ (err unknown_device, st)
  unfolding try_handle plain_command Devices.call_dial Devices.sms_list Devices.call_list
      Devices.sims_list Devices.mmi_send Devices.voicemail_set named_device
  try_handle-unknown (call_dial device number sim) d st e h =
      rw (resolve_device-unknown device d st e h, ◌>>=◌) refl
  try_handle-unknown (call_answer device) d st e h =
      rw (resolve_device-unknown device d st e h, ◌>>=◌) refl
  try_handle-unknown (call_hangup device) d st e h =
      rw (resolve_device-unknown device d st e h, ◌>>=◌) refl
  try_handle-unknown (call_reject device drop_call) d st e h =
      rw (resolve_device-unknown device d st e h, ◌>>=◌) refl
  try_handle-unknown (sms_send device to body) d st e h =
      rw (resolve_device-unknown device d st e h, ◌>>=◌) refl
  try_handle-unknown (sms_list device) d st e h =
      let read = λ (dev : Text) (w : DaemonState). reported dev w.inbox in
      refused-first (ask tasks device (list_sms none) read) messages_data st unknown_device
        (ask-unknown tasks device d (list_sms none) read st e h)
  try_handle-unknown (call_list device) d st e h =
      let read = λ (dev : Text) (w : DaemonState). reported dev w.call_log in
      refused-first (ask tasks device list_calls read) calls_data st unknown_device
        (ask-unknown tasks device d list_calls read st e h)
  try_handle-unknown (sims_list device) d st e h =
      let read = λ (dev : Text) (w : DaemonState). reported dev w.sims in
      refused-first (ask tasks device list_sims read) sims_data st unknown_device
        (ask-unknown tasks device d list_sims read st e h)
  try_handle-unknown (mmi_send device code sim) d st e h =
      rw (resolve_device-unknown device d st e h, ◌>>=◌) refl
  try_handle-unknown (voicemail_set device enabled number sim) d st e h =
      rw (resolve_device-unknown device d st e h, ◌>>=◌) refl
  try_handle-unknown server_info d st e h = absurd (none-some d e)
  try_handle-unknown server_manifest d st e h = absurd (none-some d e)
  try_handle-unknown devices_list d st e h = absurd (none-some d e)
  try_handle-unknown override_show d st e h = absurd (none-some d e)
  try_handle-unknown (audio_play file device) d st e h = absurd (none-some d e)
  try_handle-unknown (job_run path steps device name dir) d st e h = absurd (none-some d e)
  try_handle-unknown (autoanswer_serve numbers path device) d st e h = absurd (none-some d e)
  try_handle-unknown (override_set dir jobs) d st e h = absurd (none-some d e)
  try_handle-unknown (override_clear dir jobs) d st e h = absurd (none-some d e)
  try_handle-unknown (job_status job_id) d st e h = absurd (none-some d e)
  try_handle-unknown (job_cancel force) d st e h = absurd (none-some d e)
  try_handle-unknown (share_start profile bind targets whole token expiry ports) d st e h =
      absurd (none-some d e)
  try_handle-unknown (share_devices profile) d st e h = absurd (none-some d e)
  try_handle-unknown (share_stop profile) d st e h = absurd (none-some d e)
  try_handle-unknown (share_status profile) d st e h = absurd (none-some d e)
