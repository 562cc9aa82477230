-- ===== src/Control/Devices/Stale.antt =====
-- daemon.rs: an answer that a phone gave to an earlier request.
use dial_f.Prelude.{ℕ, zero, suc, ◌≡◌, refl, Bool, Option, none, some}
use dial_f.Prelude.Outcome.{err}
use dial_f.Prelude.Assoc.{lookup, lookup-erase}
use dial_f.Prelude.Text.{Text}
use dial_f.Phones.Registry.{DeviceInfo, get}
use dial_f.Jobs.Track.{Tasks}
use dial_f.Daemon.{DaemonState}
use dial_f.Control.{no_device_reply, mmi_data, voicemail_data, Handler, ◌>>=◌, pure}
use dial_f.Control.Requests.{resolve_device}
use dial_f.Control.Devices.{named_device, send_fire, await_reply, mmi_send, voicemail_set}

-- Nothing answers while the time passes.
abbrev pub IsSilent : {A : Type 0} → Tasks → (DaemonState → Option A) → Type 0
IsSilent tasks read = (n : ℕ) (w : DaemonState) → read w ≡ none → read (tasks.elapse n w) ≡ none

failed-first :
    {A B : Type 0} (m : Handler A) (f : A → B) (st : DaemonState)
    → (m st).0 ≡ err no_device_reply
    → ((m >>= λ a. pure (f a)) st).0 ≡ err no_device_reply
failed-first m f st h = rw (h, ◌>>=◌) refl

module _ (tasks : Tasks) where
  await_reply-silent :
      {A : Type 0} (rounds : ℕ) (read : DaemonState → Option A) (st : DaemonState)
      → IsSilent tasks read
      → read st ≡ none
      → (await_reply tasks rounds read st).0 ≡ err no_device_reply
  unfolding await_reply
  await_reply-silent zero read st silent h = refl
  await_reply-silent (suc rounds) read st silent h =
      rw (silent 500 st h, await_reply)
        (await_reply-silent rounds read (tasks.elapse 500 st) silent (silent 500 st h))

  answered-silent :
      {A B : Type 0} (read : DaemonState → Option A) (f : A → B) (rounds : ℕ) (st : DaemonState)
      → IsSilent tasks read
      → read st ≡ none
      → ((await_reply tasks rounds read >>= λ a. pure (f a)) st).0 ≡ err no_device_reply
  answered-silent read f rounds st silent h =
      failed-first (await_reply tasks rounds read) f st (await_reply-silent rounds read st silent h)

  -- A request to run a code on a phone takes no earlier answer for its own: when the phone is known and
  -- no answer comes while the daemon waits, the request fails, whatever the phone answered before.
  pub mmi_send-stale :
      (R : Type 0) (device code : Text) (sim_sub_id : Option ℕ) (info : DeviceInfo)
      (st : DaemonState)
      → get device st.registry ≡ some info
      → IsSilent tasks (λ w. lookup device w.mmi_results)
      → (mmi_send tasks {R = R} device code sim_sub_id st).0 ≡ err no_device_reply
  unfolding mmi_send named_device resolve_device send_fire
  mmi_send-stale R device code sim_sub_id info st known silent =
      rw (known, resolve_device, ◌>>=◌)
        (answered-silent (λ w. lookup device w.mmi_results) mmi_data 30 _ silent
          (lookup-erase device st.mmi_results))

  voicemail_set-stale :
      (R : Type 0) (device : Text) (enabled : Bool) (number : Option Text) (sim_sub_id : Option ℕ)
      (info : DeviceInfo) (st : DaemonState)
      → get device st.registry ≡ some info
      → IsSilent tasks (λ w. lookup device w.voicemail_results)
      → (voicemail_set tasks {R = R} device enabled number sim_sub_id st).0 ≡ err no_device_reply
  unfolding voicemail_set named_device resolve_device send_fire
  voicemail_set-stale R device enabled number sim_sub_id info st known silent =
      rw (known, resolve_device, ◌>>=◌)
        (answered-silent (λ w. lookup device w.voicemail_results) voicemail_data 60 _ silent
          (lookup-erase device st.voicemail_results))
