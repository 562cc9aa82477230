-- ===== src/Phones/Server.antt =====
-- transport/phone_server.rs: the connections of the phones, from the first message to the teardown.
pub mod Sockets
mod Examples
use dial_f.Prelude.{
  ℕ, ◌+◌, ◌-◌, Bool, true, false, not, ◌&&◌, Option, none, some, List, [], ◌∷◌, ◌++◌, if◌then◌else◌,
}
use dial_f.Prelude.Assoc.{lookup, erase, insert}
use dial_f.Prelude.Outcome.{Result, ok, err}
use dial_f.Prelude.Text.{Text, bytes, text_eq}
use dial_f.Protocol.{PhoneToServer, hello, heartbeat, hangup}
use dial_f.Phones.Hub.{register, unregister, drop_device}
use dial_f.Phones.Hub.Sending.{fire}
use dial_f.Phones.Registry.{CallInfo, DeviceInfo, upsert, remove, reap_older_than}
use dial_f.Daemon.{DaemonState, emit}
use dial_f.Phones.Messages.{fire_at, device}

abbrev pub stale_after_ms : ℕ
stale_after_ms = 90000

-- is_relaunch
unfoldable pub is_relaunch : Text → Option Text → Bool
unfolding text_eq
is_relaunch new none = false
is_relaunch new (some p) = not (text_eq p new)

pub data Rejection : Type 0 where
  bad_key expected_hello : Rejection

-- What becomes of the device's call when its app connects.
abbrev pub prior_call : Bool → Option DeviceInfo → Option CallInfo
prior_call true d = none
prior_call false none = none
prior_call false (some d) = d.current_call

-- The steps of handle_conn between an accepted hello and the reader loop, which it takes one after
-- another: the launch is compared, a job of the app's last launch is aborted, and the connection and
-- the device are registered.
unfoldable pub note_launch : Text → Text → DaemonState → Bool × DaemonState
unfolding is_relaunch lookup insert
note_launch device_id instance_id st =
    let relaunched = is_relaunch instance_id (lookup device_id st.instances) in
    let st1 = record st { instances = insert device_id instance_id st.instances } in
    (
      relaunched,
      if relaunched && st.card_busy
          then emit (device_id ++ bytes " app relaunched → job aborted")
              (record st1 { job_abort = true })
          else st1,
    )

unfoldable pub register_conn : Text → DaemonState → ℕ × DaemonState
unfolding register
register_conn device_id st =
    let (gen, h) = register device_id st.hub in (gen, record st { hub = h })

unfoldable pub register_device :
    Text → Text → Text → Option CallInfo → ℕ → DaemonState → DaemonState
unfolding insert
register_device device_id name ip call now st = record st {
  registry =
      upsert
        (record {
          id = device_id;
          name = name;
          addr = some ip;
          last_seen_ms = now;
          current_call = call;
          adb = none;
        })
        st.registry;
}

-- handle_conn up to the reader loop: the connection's generation, when it is accepted.
unfoldable pub accept_conn :
    PhoneToServer → Text → ℕ → DaemonState → Result Rejection ℕ × DaemonState
unfolding note_launch register_conn register_device lookup text_eq fire
accept_conn (hello device_id name key caps app_version instance_id) ip now st =
    if text_eq key st.shared_key
    then (let (relaunched, st1) = note_launch device_id instance_id st in
        let call = prior_call relaunched (device device_id st1) in
        let (gen, st2) = register_conn device_id st1 in
        let st3 = register_device device_id name ip call now st2 in
        (ok gen, if relaunched && st.card_busy then fire_at device_id (hangup none) st3 else st3))
    else (err bad_key, st)
accept_conn _ ip now st = (err expected_hello, st)

-- handle_conn behind the reader loop, in its two steps.
unfoldable pub drop_conn : Text → ℕ → DaemonState → Bool × DaemonState
unfolding unregister
drop_conn device_id gen st =
    let (current, h) = unregister device_id gen st.hub in (current, record st { hub = h })

abbrev pub drop_record : Text → DaemonState → DaemonState
drop_record device_id st = record st { registry = remove device_id st.registry }

unfoldable pub close_conn : Text → ℕ → DaemonState → DaemonState
unfolding drop_conn erase
close_conn device_id gen st =
    let (current, st1) = drop_conn device_id gen st in
    if current then drop_record device_id st1 else st1

unfoldable pub drop_reaped : List Text → DaemonState → DaemonState
unfolding drop_device
drop_reaped [] st = st
drop_reaped (id ∷ ids) st = drop_reaped ids (
    emit (bytes "device " ++ (id ++ bytes " dropped (stale connection — no heartbeat)"))
      (record st { hub = drop_device id st.hub }))

-- One round of reap_stale.
unfoldable pub reap : ℕ → DaemonState → DaemonState
unfolding reap_older_than drop_reaped
reap now st =
    let (reaped, r) = reap_older_than (now - stale_after_ms) st.registry in
    drop_reaped reaped (record st { registry = r })
