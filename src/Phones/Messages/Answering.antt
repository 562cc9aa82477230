-- ===== src/Phones/Messages/Answering.antt =====
-- transport/phone_server.rs: one sound card, one job at a time.
use dial_f.Prelude.{
  ℕ, ◌+◌, ◌≡◌, ◌⊎◌, refl, ◌∙◌, inl, inr, Bool, true, false, not, ◌&&◌, Option, none, some, List, [],
  ◌∷◌, ◌++◌, Bool-cases, Option-cases, arith,
}
use dial_f.Prelude.Assoc.{lookup, erase, insert}
use dial_f.Prelude.Text.{Text, text_eq}
use dial_f.Protocol.{
  Direction, inward, outward, ringing, active, call_ended, dialing, AdbReport, PhoneToServer, hello,
  heartbeat, call_state, sms, calls, sims, mmi_result, voicemail_result, ack, error,
}
use dial_f.AdbLink.{begin_check, endpoint_of}
use dial_f.Daemon.{
  DaemonState, InboundHandler, only_answer, run_file, run_steps, Source, from_path, from_steps,
  Spawned, adb_check, answer_job, acquire_card, resolve_inbound, write_call_marker,
  remove_call_marker, record_sms,
}
use dial_f.Phones.Messages.{
  device, change_device, start_check, on_report, start_job, trigger_autoanswer, note_active,
  settle_orphan, mark_driven, note_ended, note_ringing, see_call, handle_phone_msg, link_of,
  shown_endpoint, is_text,
}

-- How many answer jobs were started.
unfoldable pub jobs : List Spawned → ℕ
jobs [] = 0
jobs (adb_check d e s p m ∷ ts) = jobs ts
jobs (answer_job d c n s ∷ ts) = jobs ts + 1

-- Between the states no job is started and the sound card stays as it is, or one is started and takes
-- the free card.
abbrev pub Exclusive : DaemonState → DaemonState → Type 0
Exclusive st st' =
    ((jobs st'.spawned ≡ jobs st.spawned) × (st'.card_busy ≡ st.card_busy))
    ⊎ ((jobs st'.spawned ≡ jobs st.spawned + 1) × (st.card_busy ≡ false) × (st'.card_busy ≡ true))

jobs-append : (ts : List Spawned) (us : List Spawned) → jobs (ts ++ us) ≡ jobs ts + jobs us
unfolding jobs
jobs-append [] us = omega arith
jobs-append (adb_check d e s p m ∷ ts) us = jobs-append ts us
jobs-append (answer_job d c n s ∷ ts) us = omega (arith, jobs-append ts us)

jobs-check :
    (ts : List Spawned) (d e : Text) (s : List Text) (p : Option Text) (m : Bool)
    → jobs (ts ++ (adb_check d e s p m ∷ [])) ≡ jobs ts
unfolding jobs
jobs-check ts d e s p m = jobs-append ts (adb_check d e s p m ∷ []) ∙ omega arith

start_job-Exclusive :
    (d c : Text) (n : Option Text) (s : Source) (w : Option Text) (st : DaemonState)
    → Exclusive st (start_job d c n s w st)
unfolding start_job acquire_card jobs
start_job-Exclusive d c n s w st =
    elim (Bool-cases (elim w [ none ↦ true | some x ↦ text_eq x d ])) [
      | inl e ↦ elim (Bool-cases st.card_busy) [
        | inl b ↦ rw (e, b) (inl (refl, refl))
        | inr b ↦ rw (e, b) (inr (jobs-append st.spawned _, refl, refl))
      ]
      | inr e ↦ rw e (inl (refl, refl))
    ]

trigger_autoanswer-Exclusive :
    (d c : Text) (n : Option Text) (h : InboundHandler) (st : DaemonState)
    → Exclusive st (trigger_autoanswer d c n h st)
unfolding trigger_autoanswer
trigger_autoanswer-Exclusive d c n only_answer st = inl (refl, refl)
trigger_autoanswer-Exclusive d c n (run_file p w) st = start_job-Exclusive d c n (from_path p) w st
trigger_autoanswer-Exclusive d c n (run_steps s) st =
    start_job-Exclusive d c n (from_steps s) none st

note_ringing-Exclusive :
    (d c : Text) (n : Option Text) (r : Direction) (st : DaemonState)
    → Exclusive st (note_ringing d c n r st)
unfolding note_ringing
note_ringing-Exclusive d c none r st = inl (refl, refl)
note_ringing-Exclusive d c (some n) outward st = inl (refl, refl)
note_ringing-Exclusive d c (some n) inward st = elim (Option-cases (resolve_inbound n st)) [
  | inl e ↦ rw (note_ringing, e) (inl (refl, refl))
  | inr (h, e) ↦ rw (note_ringing, e) (trigger_autoanswer-Exclusive d c (some n) h st)
]

start_check-Exclusive :
    (d ep : Text) (s : Option Text) (now : ℕ) (st : DaemonState)
    → Exclusive st (start_check d ep s now st)
unfolding start_check jobs
start_check-Exclusive d ep s now st = elim (Option-cases (begin_check ep now (link_of d st))) [
  | inl e ↦ rw (start_check, e) (inl (refl, refl))
  | inr ((p, m, l), e) ↦
      let st1 = record st { adb_links = insert d l st.adb_links } in
      elim (Bool-cases (is_text (shown_endpoint (device d st1)) ep)) [
        | inl q ↦ rw (start_check, e, q) (inl (jobs-check st.spawned d ep _ p m, refl))
        | inr q ↦ rw (start_check, e, q) (inl (jobs-check st.spawned d ep _ p m, refl))
      ]
]

on_report-Exclusive :
    (d : Text) (r : AdbReport) (now : ℕ) (st : DaemonState) → Exclusive st (on_report d r now st)
unfolding on_report
on_report-Exclusive d r now st = elim (Option-cases (device d st)) [
  | inl n ↦ rw (on_report, n) (inl (refl, refl))
  | inr (dev, e) ↦ elim (Option-cases dev.addr) [
    | inl n ↦ rw (on_report, e, n) (inl (refl, refl))
    | inr (ip, a) ↦ elim (Bool-cases r.wifi_enabled) [
      | inr w ↦ rw (on_report, e, a, w) (inl (refl, refl))
      | inl w ↦ elim (Option-cases r.port) [
        | inl n ↦ rw (on_report, e, a, w, n) (inl (refl, refl))
        | inr (port, q) ↦
            rw (on_report, e, a, w, q)
              (start_check-Exclusive d (endpoint_of ip port) r.service now st)
      ]
    ]
  ]
]

-- Two states with the same tasks and the same card.
abbrev Alike : DaemonState → DaemonState → Type 0
Alike st st' = (jobs st'.spawned ≡ jobs st.spawned) × (st'.card_busy ≡ st.card_busy)

settle_orphan-Alike :
    (d c : Text) (o : Option Text) (st : DaemonState) → Alike st (settle_orphan d c o st)
unfolding settle_orphan remove_call_marker
settle_orphan-Alike d c none st = (refl, refl)
settle_orphan-Alike d c (some m) st = elim (Bool-cases (text_eq m c && not st.card_busy)) [
  | inl e ↦ rw e (refl, refl)
  | inr e ↦ rw e (refl, refl)
]

mark_driven-Alike : (d c : Text) (st : DaemonState) → Alike st (mark_driven d c st)
unfolding mark_driven write_call_marker
mark_driven-Alike d c st = elim (Bool-cases st.card_busy) [
  | inl b ↦ rw b (refl, refl)
  | inr b ↦ rw b (refl, refl)
]

note_active-Exclusive : (d c : Text) (st : DaemonState) → Exclusive st (note_active d c st)
unfolding note_active
note_active-Exclusive d c st =
    let cleared = record st { pending_orphans = erase d st.pending_orphans } in
    let s = settle_orphan-Alike d c (lookup d st.pending_orphans) cleared in
    let m = mark_driven-Alike d c (settle_orphan d c (lookup d st.pending_orphans) cleared) in
    inl (m.0 ∙ s.0, m.1 ∙ s.1)

-- Whatever message a phone sends, dialfd starts at most one answer job for it, only when the sound
-- card is free, and the card is then taken; no other message changes who has the card.
pub handle_phone_msg-Exclusive :
    (d : Text) (m : PhoneToServer) (now : ℕ) (st : DaemonState)
    → Exclusive st (handle_phone_msg d m now st)
unfolding handle_phone_msg note_ended record_sms remove_call_marker
handle_phone_msg-Exclusive d (heartbeat ts b none) now st = inl (refl, refl)
handle_phone_msg-Exclusive d (heartbeat ts b (some r)) now st =
    on_report-Exclusive d r now (change_device d (λ x. record x { last_seen_ms = now }) st)
handle_phone_msg-Exclusive d (call_state c active n r) now st =
    note_active-Exclusive d c (see_call d now c active n r st)
handle_phone_msg-Exclusive d (call_state c call_ended n r) now st = inl (refl, refl)
handle_phone_msg-Exclusive d (call_state c ringing n r) now st =
    note_ringing-Exclusive d c n r (see_call d now c ringing n r st)
handle_phone_msg-Exclusive d (call_state c dialing n r) now st = inl (refl, refl)
handle_phone_msg-Exclusive d (sms x) now st = inl (refl, refl)
handle_phone_msg-Exclusive d (calls x) now st = inl (refl, refl)
handle_phone_msg-Exclusive d (sims x) now st = inl (refl, refl)
handle_phone_msg-Exclusive d (mmi_result x) now st = inl (refl, refl)
handle_phone_msg-Exclusive d (voicemail_result x) now st = inl (refl, refl)
handle_phone_msg-Exclusive d (ack c s) now st = inl (refl, refl)
handle_phone_msg-Exclusive d (error none x) now st = inl (refl, refl)
handle_phone_msg-Exclusive d (error (some c) x) now st = inl (refl, refl)
handle_phone_msg-Exclusive d (hello i n k c a l) now st = inl (refl, refl)
