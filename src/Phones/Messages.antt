-- ===== src/Phones/Messages.antt =====
-- transport/phone_server.rs: what dialfd does with the messages of a phone, and adb_link.rs: what it
-- does with the report in a heartbeat. A message comes with the time at which it is handled.
pub mod Calls
pub mod Answering
mod Examples
use dial_f.Prelude.{
  ℕ, ◌+◌, Bool, true, false, not, ◌&&◌, Option, none, some, [], ◌∷◌, ◌++◌, if◌then◌else◌, length,
}
use dial_f.Prelude.Assoc.{lookup, erase, insert}
use dial_f.Prelude.Outcome.{ok, err}
use dial_f.Prelude.Text.{Text, bytes, text_eq, decimal}
use dial_f.Protocol.{
  Direction, inward, CallState, ringing, active, call_ended, dialing, AdbReport, PhoneToServer,
  hello, heartbeat, call_state, sms, calls, sims, mmi_result, voicemail_result, ack, error, answer,
  hangup, heartbeat_ack, Action,
}
use dial_f.AdbLink.{
  AdbStatus, new_status, off, available, Link, new_link, begin_check, serials, endpoint_of,
}
use dial_f.Phones.Hub.{send_frame, resolve_ack}
use dial_f.Phones.Hub.Sending.{fire}
use dial_f.Phones.Registry.{CallInfo, DeviceInfo, get, update}
use dial_f.Daemon.{
  DaemonState, emit, InboundHandler, only_answer, run_file, run_steps, Source, from_path,
  from_steps, adb_check, answer_job, resolve_inbound, acquire_card, record_sms, write_call_marker,
  remove_call_marker,
}

-- `let _ = state.hub.fire(…)`
abbrev pub fire_at : Text → Action → DaemonState → DaemonState
fire_at device_id action st = record st { hub = (fire device_id action st.hub).1 }

abbrev pub device : Text → DaemonState → Option DeviceInfo
device device_id st = get device_id st.registry

abbrev pub change_device : Text → (DeviceInfo → DeviceInfo) → DaemonState → DaemonState
change_device device_id f st = record st { registry = update device_id f st.registry }

-- adb_link.rs, set_status
abbrev pub set_status : Text → AdbStatus → DaemonState → DaemonState
set_status device_id status st = change_device device_id (λ d. record d { adb = some status }) st

abbrev pub shown_endpoint : Option DeviceInfo → Option Text
shown_endpoint none = none
shown_endpoint (some d) = elim d.adb [ none ↦ none | some a ↦ a.endpoint ]

abbrev pub is_text : Option Text → Text → Bool
is_text none t = false
is_text (some s) t = text_eq s t

abbrev pub link_of : Text → DaemonState → Link
link_of device_id st = elim (lookup device_id st.adb_links) [ none ↦ new_link | some l ↦ l ]

-- adb_link.rs, on_report, once the endpoint is known.
pub start_check : Text → Text → Option Text → ℕ → DaemonState → DaemonState
unfolding begin_check update insert serials lookup text_eq
start_check device_id ep service now st =
    let st' = record st { adb_links = insert device_id (link_of device_id st) st.adb_links } in
    elim (begin_check ep now (link_of device_id st)) [
      | none ↦ st'
      | some (previous, may_connect, link) ↦
          let st1 = record st { adb_links = insert device_id link st.adb_links } in
          let st2 =
            (if is_text (shown_endpoint (device device_id st1)) ep
              then st1
              else set_status device_id (new_status (some ep) available none) st1) in
          record st2 {
            spawned =
                st2.spawned
                ++ (adb_check device_id ep (serials ep service) previous may_connect ∷ []);
          }
    ]

-- adb_link.rs, on_report
unfoldable pub on_report : Text → AdbReport → ℕ → DaemonState → DaemonState
unfolding start_check endpoint_of update
on_report device_id report now st = elim (device device_id st) [
  | none ↦ st
  | some dev ↦ elim dev.addr [
    | none ↦ st
    | some ip ↦
        if report.wifi_enabled
        then elim report.port [
          | none ↦
              set_status device_id
                (new_status none off
                  (some (bytes "wireless debugging is on; the phone has not found its port yet")))
                st
          | some port ↦ start_check device_id (endpoint_of ip port) report.service now st
        ]
        else set_status device_id (new_status none off none) st
  ]
]

-- trigger_autoanswer, once the handler names a job.
pub start_job : Text → Text → Option Text → Source → Option Text → DaemonState → DaemonState
unfolding acquire_card
start_job device_id call_id number source want st =
    if elim want [ none ↦ true | some w ↦ text_eq w device_id ]
    then (let (free, st1) = acquire_card st in
        if free
        then (let n : Text = elim number [ none ↦ [] | some t ↦ t ] in
            let what : Text = elim source [
              | from_path p ↦ p
              | from_steps s ↦ bytes "inline job (" ++ (decimal (length s) ++ bytes " steps)")
            ] in
            let st2 = emit (bytes "answered " ++ (n ++ (bytes " → running " ++ what))) st1 in
            record st2 { spawned = st2.spawned ++ (answer_job device_id call_id n source ∷ []) })
        else emit
            (bytes "skipped "
              ++ (elim number [ none ↦ bytes "?" | some t ↦ t ] ++ bytes " (phone busy)"))
            st1)
    else st

unfoldable pub trigger_autoanswer :
    Text → Text → Option Text → InboundHandler → DaemonState → DaemonState
unfolding start_job fire
trigger_autoanswer device_id call_id number only_answer st =
    fire_at device_id (answer (some call_id)) st
trigger_autoanswer device_id call_id number (run_file path want) st =
    start_job device_id call_id number (from_path path) want st
trigger_autoanswer device_id call_id number (run_steps steps) st =
    start_job device_id call_id number (from_steps steps) none st

-- The call that a call_state message leaves the device with.
abbrev pub call_after : Text → CallState → Option Text → Direction → Option CallInfo
call_after call_id cs number direction = elim cs [
  | call_ended ↦ none
  | s ↦ some (record { call_id = call_id; number = number; state = s; direction = direction })
]

-- The mark of a call that was active when an earlier run of the daemon ended, if the device has one:
-- that very call is hung up when no job drives it, and the mark is cleared anyway.
unfoldable pub settle_orphan : Text → Text → Option Text → DaemonState → DaemonState
unfolding remove_call_marker fire text_eq
settle_orphan device_id call_id none st = st
settle_orphan device_id call_id (some marked) st =
    if text_eq marked call_id && not st.card_busy
    then emit (device_id ++ bytes " → hung up an orphaned call (daemon had crashed)")
        (fire_at device_id (hangup (some call_id)) (remove_call_marker device_id st))
    else remove_call_marker device_id st

-- A call that a job drives is marked.
unfoldable pub mark_driven : Text → Text → DaemonState → DaemonState
unfolding write_call_marker
mark_driven device_id call_id st =
    if st.card_busy then write_call_marker device_id call_id st else st

-- A call is reported active.
unfoldable pub note_active : Text → Text → DaemonState → DaemonState
unfolding lookup erase settle_orphan mark_driven
note_active device_id call_id st = mark_driven device_id call_id (
    settle_orphan device_id call_id (lookup device_id st.pending_orphans)
      (record st { pending_orphans = erase device_id st.pending_orphans }))

-- A call is reported ended.
unfoldable pub note_ended : Text → DaemonState → DaemonState
unfolding erase remove_call_marker
note_ended device_id st =
    let st1 = remove_call_marker device_id st in
    record st1 { pending_orphans = erase device_id st1.pending_orphans }

-- An incoming call rings.
unfoldable pub note_ringing : Text → Text → Option Text → Direction → DaemonState → DaemonState
unfolding resolve_inbound trigger_autoanswer
note_ringing device_id call_id none direction st = st
note_ringing device_id call_id (some n) direction st = elim direction [
  | inward ↦ elim (resolve_inbound n st) [
    | none ↦ st
    | some handler ↦ trigger_autoanswer device_id call_id (some n) handler st
  ]
  | _ ↦ st
]

abbrev pub see_call :
    Text → ℕ → Text → CallState → Option Text → Direction → DaemonState → DaemonState
see_call device_id now call_id cs number direction st =
    change_device device_id
      (λ d. record d { last_seen_ms = now; current_call = call_after call_id cs number direction })
      st

-- handle_phone_msg
unfoldable pub handle_phone_msg : Text → PhoneToServer → ℕ → DaemonState → DaemonState
unfolding update on_report send_frame note_active note_ended note_ringing record_sms insert
    resolve_ack
handle_phone_msg device_id (heartbeat ts battery adb) now st =
    let st1 = change_device device_id (λ d. record d { last_seen_ms = now }) st in
    let st2 : DaemonState = elim adb [
      | none ↦ st1
      | some report ↦ on_report device_id report now st1
    ] in
    record st2 { hub = send_frame device_id heartbeat_ack st2.hub }
handle_phone_msg device_id (call_state call_id active number direction) now st =
    note_active device_id call_id (see_call device_id now call_id active number direction st)
handle_phone_msg device_id (call_state call_id call_ended number direction) now st =
    note_ended device_id (see_call device_id now call_id call_ended number direction st)
handle_phone_msg device_id (call_state call_id ringing number direction) now st =
    note_ringing device_id call_id number direction
      (see_call device_id now call_id ringing number direction st)
handle_phone_msg device_id (call_state call_id dialing number direction) now st =
    see_call device_id now call_id dialing number direction st
handle_phone_msg device_id (sms rec) now st = record_sms device_id rec st
handle_phone_msg device_id (calls entries) now st = record st {
  call_log = insert device_id entries st.call_log;
}
handle_phone_msg device_id (sims entries) now st = record st {
  sims = insert device_id entries st.sims;
}
handle_phone_msg device_id (mmi_result r) now st = record st {
  mmi_results = insert device_id r st.mmi_results;
}
handle_phone_msg device_id (voicemail_result r) now st = record st {
  voicemail_results = insert device_id r st.voicemail_results;
}
handle_phone_msg device_id (ack cmd_id succeeded) now st = record st {
  hub =
      resolve_ack device_id cmd_id
        (if succeeded then ok tt else err (bytes "phone reported failure")) st.hub;
}
handle_phone_msg device_id (error cmd_id msg) now st = elim cmd_id [
  | none ↦ st
  | some id ↦ record st { hub = resolve_ack device_id id (err msg) st.hub }
]
handle_phone_msg device_id (hello i n k c a l) now st = st
