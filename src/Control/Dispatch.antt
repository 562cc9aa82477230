-- ===== src/Control/Dispatch.antt =====
-- daemon.rs: what each request on the control socket does.
pub mod Refused
use dial_f.Prelude.{none, some}
use dial_f.Protocol.{answer, hangup, reject, send_sms}
use dial_f.Jobs.Track.{Tasks, Engine}
use dial_f.Phones.Registry.Listing.{list}
use dial_f.Daemon.{DaemonState}
use dial_f.Control.{
  ControlOp, server_info, server_manifest, devices_list, override_show, call_dial, call_answer,
  call_hangup, call_reject, sms_list, call_list, sims_list, sms_send, mmi_send, voicemail_set,
  audio_play, job_run, autoanswer_serve, override_set, override_clear, job_status, job_cancel,
  share_start, share_devices, share_stop, share_status, not_here, not_tracked, Payload, info_data,
  manifest_data, devices_data, Handler, fail, pure, gets, Files,
}
use dial_f.Control.Overrides as Overrides
use dial_f.Control.Overrides.{overrides_info}
use dial_f.Control.Runs as Runs
use dial_f.Control.Runs.{Recorder}
use dial_f.Control.Devices as Devices
use dial_f.Control.Devices.{plain_command}
use dial_f.Control.Shares as Shares
use dial_f.Control.Shares.{Network}

-- What `server.info` says of the overrides; the facts of the host around it are left out.
unfoldable pub info : {R : Type 0} → DaemonState → Payload R
unfolding overrides_info
info st = elim (overrides_info st) [ none ↦ info_data none none | some (d, n) ↦ info_data d n ]

module _ {Session Recording : Type 0} (files : Files) (net : Network)
    (recorder : Recorder Session Recording) (engine : Engine Session) (tasks : Tasks) where
  -- try_handle
  unfoldable pub try_handle : ControlOp → Handler (Payload Recording)
  unfolding info list plain_command
  try_handle server_info = gets info
  try_handle server_manifest = pure manifest_data
  try_handle devices_list = gets (λ (st : DaemonState). devices_data (list st.registry))
  try_handle (call_dial device number sim) = Devices.call_dial tasks device number sim
  try_handle (call_answer device) = plain_command tasks device (answer none)
  try_handle (call_hangup device) = plain_command tasks device (hangup none)
  try_handle (call_reject device drop_call) = plain_command tasks device (reject none drop_call)
  try_handle (sms_send device to body) = plain_command tasks device (send_sms to body)
  try_handle (sms_list device) = Devices.sms_list tasks device
  try_handle (call_list device) = Devices.call_list tasks device
  try_handle (sims_list device) = Devices.sims_list tasks device
  try_handle (mmi_send device code sim) = Devices.mmi_send tasks device code sim
  try_handle (voicemail_set device enabled number sim) =
      Devices.voicemail_set tasks device enabled number sim
  try_handle (audio_play file device) = Devices.audio_play engine file
  try_handle (job_run path steps device name record_dir) =
      Runs.job_run recorder engine tasks files path steps device name record_dir
  try_handle (job_cancel force) = Runs.job_cancel force
  try_handle (autoanswer_serve numbers path device) = fail not_here
  try_handle (override_set record_dir autoanswer) =
      Overrides.override_set files record_dir autoanswer
  try_handle override_show = Overrides.override_show
  try_handle (override_clear record_dir autoanswer) = Overrides.override_clear record_dir autoanswer
  try_handle (job_status job_id) = fail not_tracked
  try_handle (share_start profile bind targets all_devices token expire_after forward_ports) =
      Shares.share_start net tasks profile bind targets all_devices token expire_after forward_ports
  try_handle (share_devices profile) = Shares.share_devices net tasks profile
  try_handle (share_stop profile) = Shares.share_stop net tasks profile
  try_handle (share_status profile) = Shares.share_status net tasks profile
