-- ===== src/Control.antt =====
-- protocol.rs: the requests on the control socket, and daemon.rs: what they answer with. A handler is
-- a function on the state of the daemon that may fail; what it has changed by then stays changed.
pub mod Validation
pub mod Overrides
pub mod Requests
pub mod Inbound
pub mod Devices
pub mod Runs
pub mod Shares
pub mod AutoAnswer
pub mod Dispatch
mod Sample
mod Examples
use dial_f.Prelude.{ℕ, Bool, Option, List, if◌then◌else◌}
use dial_f.Prelude.Outcome.{Result, ok, err}
use dial_f.Prelude.Text.{Text}
use dial_f.Protocol.{SmsRecord, CallRecord, SimInfo, MmiResult, VoicemailResult}
use dial_f.Jobs.Schema.{Step}
use dial_f.Jobs.Runner.{StepOutcome}
use dial_f.Jobs.Track.{CallSummary, IoError}
use dial_f.Share.Adb.Devices.{Device}
use dial_f.Share.Config.{ConfigError}
use dial_f.Share.Config.Resolved.{ResolvedShare, ℤ}
use dial_f.Phones.Hub.Sending.{CommandError}
use dial_f.Phones.Registry.{DeviceInfo}
use dial_f.Daemon.{DaemonState}

-- One number's job in an `override.set` request.
pub data AutoanswerValue : Type 0 where
  inline_steps : List Step → AutoanswerValue
  yaml : Text → AutoanswerValue
  job_file : Text → AutoanswerValue

pub data ControlOp : Type 0 where
  server_info server_manifest devices_list override_show : ControlOp
  call_dial : (device number : Text) → (sim_sub_id : Option ℕ) → ControlOp
  call_answer call_hangup sms_list call_list sims_list : (device : Text) → ControlOp
  call_reject : (device : Text) → (drop_call : Bool) → ControlOp
  sms_send : (device to body : Text) → ControlOp
  mmi_send : (device code : Text) → (sim_sub_id : Option ℕ) → ControlOp
  voicemail_set :
      (device : Text)
      → (enabled : Bool) → (number : Option Text) → (sim_sub_id : Option ℕ) → ControlOp
  audio_play : (file : Text) → (device : Option Text) → ControlOp
  job_run :
      (path : Option Text)
      → (steps : Option (List Step)) → (device label record_dir : Option Text) → ControlOp
  autoanswer_serve : (numbers : List Text) → (path : Text) → (device : Option Text) → ControlOp
  override_set :
      (record_dir : Option Text)
      → (autoanswer : Option (List (Text × Option AutoanswerValue))) → ControlOp
  override_clear : (record_dir autoanswer : Bool) → ControlOp
  job_status : (job_id : Text) → ControlOp
  job_cancel : (force : Bool) → ControlOp
  share_start :
      (profile bind : Option Text)
      → (targets : List Text) → (all_devices token : Bool) → (expire_after : Option ℤ)
      → (forward_ports : List ℕ) → ControlOp
  share_devices share_stop share_status : (profile : Option Text) → ControlOp

pub data ControlError : Type 0 where
  unknown_device no_sole_device no_device_reply job_source_missing phone_busy : ControlError
  record_dir_relative record_dir_failed override_empty empty_number job_relative : ControlError
  job_unreadable job_unparsed play_relative not_here not_tracked devices_unlisted : ControlError
  not_attached : List Text → ControlError
  bind_failed no_fuel : ControlError
  recording_failed play_failed : Text → ControlError
  by_command : CommandError → ControlError
  by_config : ConfigError → ControlError
  by_job : IoError → ControlError

-- What `override.show` reports of a number.
pub data JobView : Type 0 where
  view_answer_only : JobView
  view_file : Text → JobView
  view_steps : ℕ → JobView

-- What a job reports.
pub record JobRunOutput (Recording : Type 0) : Type 0 where
  pub outcomes : List StepOutcome
  pub recording : Option Recording
  pub call : Option CallSummary
  pub t0_epoch_ms : Option ℕ

-- The payload of a response.
pub data Payload (Recording : Type 0) : Type 0 where
  no_data manifest_data : Payload Recording
  info_data : (record_dir : Option Text) → (autoanswer_numbers : Option ℕ) → Payload Recording
  devices_data : List DeviceInfo → Payload Recording
  dialed_data : (number : Text) → (sim_sub_id : Option ℕ) → Payload Recording
  messages_data : List SmsRecord → Payload Recording
  calls_data : List CallRecord → Payload Recording
  sims_data : List SimInfo → Payload Recording
  mmi_data : MmiResult → Payload Recording
  voicemail_data : VoicemailResult → Payload Recording
  job_data : JobRunOutput Recording → Payload Recording
  cancelled_data : (force : Bool) → Payload Recording
  overrides_data :
      (record_dir : Option Text) → (autoanswer : Option (List (Text × JobView))) → Payload Recording
  share_started : ResolvedShare → (expires_in : Option ℕ) → Payload Recording
  attached_data : List Device → Payload Recording
  share_stopped : Bool → Payload Recording
  share_running : ResolvedShare → (reachable : Bool) → (expires_in : Option ℕ) → Payload Recording
  share_idle : (autostart : Bool) → Payload Recording

abbrev pub Handler {ℓ} : Type ℓ → Type ℓ
Handler A = DaemonState → Result ControlError A × DaemonState

infixl 5 ◌>>=◌ ◌>>◌
abbrev pub ◌>>=◌ {ℓ κ} : {A : Type ℓ} {B : Type κ} → Handler A → (A → Handler B) → Handler B
◌>>=◌ m f st = let (r, st') = m st in elim r [ ok a ↦ f a st' | err e ↦ (err e, st') ]

abbrev pub ◌>>◌ {κ} : {B : Type κ} → Handler (Unit {0}) → Handler B → Handler B
m >> k = m >>= λ _. k

abbrev pub pure {ℓ} : {A : Type ℓ} → A → Handler A
pure a st = (ok a, st)

abbrev pub fail {ℓ} : {A : Type ℓ} → ControlError → Handler A
fail e st = (err e, st)

-- The `?` operator on a result that needs no state.
abbrev pub lift {ℓ} : {A : Type ℓ} → Result ControlError A → Handler A
lift r st = (r, st)

abbrev pub modify : (DaemonState → DaemonState) → Handler (Unit {0})
modify f st = (ok tt, f st)

abbrev pub gets {ℓ} : {A : Type ℓ} → (DaemonState → A) → Handler A
gets f st = (ok (f st), st)

-- What the requests use of the host: whether a directory is there or can be made, what a file holds,
-- and the steps that a text is read as.
pub record Files : Type 0 where
  pub create_dir : Text → Bool
  pub read_file : Text → Option Text
  pub parse_job : Text → Option (List Step)
