-- ===== src/Phones/Server/Sockets.antt =====
-- transport/phone_server.rs: connecting again, late teardowns, and the records of the devices.
use dial_f.Prelude.{
  ℕ, ◌≡◌, ◌≢◌, refl, ap, ◌∙◌, inl, inr, Bool, true, false, ◌&&◌, Option, none, some, List,
  Bool-cases, arith, if◌then◌else◌,
}
use dial_f.Prelude.Assoc.{lookup, lookup-insert, lookup-erase}
use dial_f.Prelude.Outcome.{ok}
use dial_f.Prelude.Text.{Text, text_eq}
use dial_f.Protocol.{Action, hangup, PhoneToServer, hello}
use dial_f.Phones.Hub.{Hub}
use dial_f.Phones.Hub.Sending.{fire, send}
use dial_f.Phones.Hub.Current.{register-conns, register-generation, unregister-stale}
use dial_f.Phones.Registry.{CallInfo, DeviceInfo, get}
use dial_f.Daemon.{DaemonState}
use dial_f.Phones.Messages.{fire_at, device}
use dial_f.Phones.Server.{
  is_relaunch, prior_call, note_launch, register_conn, register_device, accept_conn, drop_conn,
  drop_record, close_conn,
}

fire-conns : (d : Text) (a : Action) (h : Hub) → (fire d a h).1.conns ≡ h.conns
unfolding fire send
fire-conns d a h = ground arith

-- A last effect on the hub's queues.
fired-conns :
    (b : Bool) (d : Text) (a : Action) (st : DaemonState)
    → ((if b then fire_at d a st else st).hub.conns ≡ st.hub.conns)
      × ((if b then fire_at d a st else st).registry ≡ st.registry)
fired-conns true d a st = (fire-conns d a st.hub, refl)
fired-conns false d a st = (refl, refl)

note_launch_same :
    (d i : Text) (st : DaemonState)
    → ((note_launch d i st).1.hub ≡ st.hub)
      × ((note_launch d i st).1.registry ≡ st.registry)
      × ((note_launch d i st).0 ≡ is_relaunch i (lookup d st.instances))
unfolding note_launch
note_launch_same d i st =
    elim (Bool-cases (is_relaunch i (lookup d st.instances) && st.card_busy)) [
      | inl e ↦ rw e (refl, refl, refl)
      | inr e ↦ rw e (refl, refl, refl)
    ]

register_conn-conns :
    (d : Text) (st : DaemonState)
    → ((register_conn d st).0 ≡ st.hub.conn_gen)
      × (lookup d (register_conn d st).1.hub.conns ≡ some st.hub.conn_gen)
unfolding register_conn
register_conn-conns d st = (
  register-generation d st.hub,
  ap (lookup d) (register-conns d st.hub) ∙ lookup-insert d st.hub.conn_gen st.hub.conns,
)

-- A device as it is registered.
abbrev pub device_of : Text → Text → Text → Option CallInfo → ℕ → DeviceInfo
device_of d name ip call now = record {
  id = d;
  name = name;
  addr = some ip;
  last_seen_ms = now;
  current_call = call;
  adb = none;
}

register_device_lem :
    (d name ip : Text) (call : Option CallInfo) (now : ℕ) (st : DaemonState)
    → ((register_device d name ip call now st).hub.conns ≡ st.hub.conns)
      × (get d (register_device d name ip call now st).registry
          ≡ some (device_of d name ip call now))
unfolding register_device
register_device_lem d name ip call now st =
    (refl, lookup-insert d (device_of d name ip call now) st.registry)

module _ (device_id name key : Text) (caps : List Text) (app_version : Option Text)
    (instance_id ip : Text) (now : ℕ) (st : DaemonState)
    (known : text_eq key st.shared_key ≡ true) where
  abbrev greeting : PhoneToServer
  greeting = hello device_id name key caps app_version instance_id

  -- The device as it is registered when its app connects.
  abbrev pub registered : DeviceInfo
  registered =
      device_of device_id name ip
        (prior_call (is_relaunch instance_id (lookup device_id st.instances)) (device device_id st))
        now

  -- A phone that greets with the shared key is connected and registered, whatever was there: its new
  -- connection is the device's, and the call that the device had stays exactly when the app is the
  -- same launch or was not known.
  pub accept_conn-registered :
      ((accept_conn greeting ip now st).0 ≡ ok st.hub.conn_gen)
      × (lookup device_id (accept_conn greeting ip now st).1.hub.conns ≡ some st.hub.conn_gen)
      × (get device_id (accept_conn greeting ip now st).1.registry ≡ some registered)
  unfolding accept_conn
  accept_conn-registered =
      let (same_hub, same_registry, launch) = note_launch_same device_id instance_id st in
      let st1 = (note_launch device_id instance_id st).1 in
      let (g, c) = register_conn-conns device_id st1 in
      let relaunched = is_relaunch instance_id (lookup device_id st.instances) in
      let call = prior_call relaunched (device device_id st1) in
      let st3 = register_device device_id name ip call now (register_conn device_id st1).1 in
      let (kept, untouched) =
        fired-conns (relaunched && st.card_busy) device_id (hangup none) st3 in
      let (conns, record_of) =
        register_device_lem device_id name ip call now (register_conn device_id st1).1 in
      rw (known, launch)
        (
          ap (λ n. ok n) (g ∙ ap (λ h. h.conn_gen) same_hub),
          ap (lookup device_id) (kept ∙ conns) ∙ (c ∙ ap (λ h. some h.conn_gen) same_hub),
          ap (get device_id) untouched
              ∙ (record_of
                  ∙ ap
                      (λ r.
                        some (
                          device_of device_id name ip (prior_call relaunched (get device_id r))
                            now))
                      same_registry),
        )

-- A connection that was replaced tears nothing down.
pub close_conn-stale :
    (d : Text) (g current : ℕ) (st : DaemonState)
    → lookup d st.hub.conns ≡ some current
    → g ≢ current
    → close_conn d g st ≡ st
unfolding close_conn drop_conn
close_conn-stale d g current st at n = let e = unregister-stale d current g st.hub at n in rw e refl

-- What a task does that was about to remove the record of the connection it has torn down.
abbrev pub late : Text → ℕ → PhoneToServer → Text → ℕ → DaemonState → DaemonState
late d g greeting ip now st = drop_record d (accept_conn greeting ip now (drop_conn d g st).1).1

-- The two steps of a teardown are not one: when a connection is torn down and the phone connects
-- again before its record is removed, the new connection stays in the hub without a record.
pub drop_record-late :
    (d name key : Text) (caps : List Text) (v : Option Text) (launch ip : Text) (now g : ℕ)
    (st : DaemonState)
    → text_eq key st.shared_key ≡ true
    → (drop_conn d g st).0 ≡ true
    → (lookup d (late d g (hello d name key caps v launch) ip now st).hub.conns
        ≡ some (drop_conn d g st).1.hub.conn_gen)
      × (get d (late d g (hello d name key caps v launch) ip now st).registry ≡ none)
unfolding drop_conn
drop_record-late d name key caps v launch ip now g st known torn =
    let (n, c, r) =
      accept_conn-registered d name key caps v launch ip now (drop_conn d g st).1 known in
    (
      c,
      lookup-erase d
          (accept_conn (hello d name key caps v launch) ip now (drop_conn d g st).1).1.registry,
    )
