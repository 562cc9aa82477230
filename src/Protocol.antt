-- ===== src/Protocol.antt =====
-- protocol.rs: the messages between a phone and dialfd. Integers that the host only passes on are ℕ.
use dial_f.Prelude.{ℕ, Bool, Option, List}
use dial_f.Prelude.Text.{Text, bytes}

pub data Direction : Type 0 where
  inward outward : Direction

pub data CallState : Type 0 where
  dialing ringing active call_ended : CallState

pub record AdbReport : Type 0 where
  pub wifi_enabled : Bool
  pub port : Option ℕ
  pub service : Option Text

pub record CallRecord : Type 0 where
  pub number : Option Text
  pub kind : Text
  pub ts : ℕ
  pub duration : ℕ

pub record SimInfo : Type 0 where
  pub slot : ℕ
  pub sub_id : ℕ
  pub name : Option Text
  pub carrier : Option Text
  pub number : Option Text
  pub is_default : Bool

pub record SmsRecord : Type 0 where
  pub direction : Direction
  pub from_number : Option Text
  pub to_number : Option Text
  pub body : Text
  pub ts : ℕ

pub record MmiResult : Type 0 where
  pub code : Text
  pub success : Bool
  pub response : Option Text

pub record VoicemailResult : Type 0 where
  pub enabled : Bool
  pub success : Bool
  pub response : Option Text

pub data PhoneToServer : Type 0 where
  hello :
      (device_id name key : Text)
      → (caps : List Text) → (app_version : Option Text) → (instance_id : Text) → PhoneToServer
  heartbeat : (ts : ℕ) → (battery : Option ℕ) → (adb : Option AdbReport) → PhoneToServer
  call_state : (call_id : Text) → CallState → (number : Option Text) → Direction → PhoneToServer
  sms : SmsRecord → PhoneToServer
  calls : List CallRecord → PhoneToServer
  sims : List SimInfo → PhoneToServer
  mmi_result : MmiResult → PhoneToServer
  voicemail_result : VoicemailResult → PhoneToServer
  ack : (cmd_id : Text) → (succeeded : Bool) → PhoneToServer
  error : (cmd_id : Option Text) → (msg : Text) → PhoneToServer

pub data Action : Type 0 where
  answer : (call_id : Option Text) → Action
  dial : (number : Text) → (sim_sub_id : Option ℕ) → Action
  hangup : (call_id : Option Text) → Action
  reject : (call_id : Option Text) → (drop_call : Bool) → Action
  send_sms : (to_number body : Text) → Action
  list_sms : (since : Option ℕ) → Action
  list_calls list_sims : Action
  mmi : (code : Text) → (sim_sub_id : Option ℕ) → Action
  set_voicemail : (enabled : Bool) → (number : Option Text) → (sim_sub_id : Option ℕ) → Action
  set_autoanswer : (numbers : List Text) → Action

-- Action::kind
unfoldable pub kind_of : Action → Text
kind_of (answer c) = bytes "answer"
kind_of (dial n s) = bytes "dial"
kind_of (hangup c) = bytes "hangup"
kind_of (reject c d) = bytes "reject"
kind_of (send_sms t b) = bytes "send_sms"
kind_of (list_sms s) = bytes "list_sms"
kind_of list_calls = bytes "list_calls"
kind_of list_sims = bytes "list_sims"
kind_of (mmi c s) = bytes "mmi"
kind_of (set_voicemail e n s) = bytes "set_voicemail"
kind_of (set_autoanswer ns) = bytes "set_autoanswer"

pub data ServerToPhone : Type 0 where
  cmd : (cmd_id : Text) → Action → ServerToPhone
  heartbeat_ack : ServerToPhone
