-- ===== src/Phones/Hub/Commands.antt =====
-- hub.rs: what a command returns.
use dial_f.Prelude.{
  ℕ, ◌≡◌, ◌≢◌, refl, ap, ◌∙◌, inl, inr, true, some, List, [], ◌∷◌, ◌++◌, Bool-cases, arith, ◌==◌,
}
use dial_f.Prelude.Assoc.{lookup, erase, insert, lookup-insert}
use dial_f.Prelude.Outcome.{Result, ok, err}
use dial_f.Prelude.Text.{Text, bytes}
use dial_f.Protocol.{Action, ServerToPhone, cmd, kind_of}
use dial_f.Phones.Hub.{
  Conn, Hub, find_conn, on_conn, resolve_ack, enqueue, drain, drain_found, opened, register,
  drop_device, refuse_all,
}
use dial_f.Phones.Hub.Sending.{
  phone_reported, post_ack, send, next_cmd_id, command, settle, reply_of, await_ack, CommandError,
}
use dial_f.Phones.Hub.Waiting.{answered}
use dial_f.Phones.Hub.Answers.{Reachable, Reachable-unused}

find_conn-on_conn :
    (g : ℕ) (f : Conn → Conn) (cs : List Conn) {c : Conn}
    → ((x : Conn) → (f x).gen ≡ x.gen)
    → find_conn g cs ≡ some c
    → find_conn g (on_conn g f cs) ≡ some (f c)
unfolding find_conn on_conn
find_conn-on_conn g f [] s h = cc
find_conn-on_conn g f (x ∷ cs) {c} s h = elim (Bool-cases (x.gen == g)) [
  | inl e ↦
      let q : x ≡ c = ground arith in
      let e' : (f x).gen == g ≡ true = ap (λ n. n == g) (s x) ∙ e in
      rw (e, e') (ap (λ y. some (f y)) q)
  | inr e ↦ rw (e, e) (find_conn-on_conn g f cs {c = c} s (ground arith))
]

reply_of-append :
    (w : ℕ) (rs ss : List (ℕ × Result Text (Unit {0})))
    → answered w rs ≡ 0
    → reply_of w (rs ++ ss) ≡ reply_of w ss
unfolding reply_of answered
reply_of-append w [] ss h = refl
reply_of-append w ((w', r') ∷ rs) ss h = ground (arith, reply_of-append w rs ss)

reply_of_first :
    (w : ℕ) (r : Result Text (Unit {0})) (rs : List (ℕ × Result Text (Unit {0})))
    → reply_of w ((w, r) ∷ rs) ≡ some r
unfolding reply_of
reply_of_first w r rs = ground arith

opened-find_conn :
    (g : ℕ) (d : Text) (h : Hub)
    → h.conn_gen ≢ g
    → find_conn g (opened d h).store ≡ find_conn g h.store
unfolding opened find_conn
opened-find_conn g d h n = ground arith

-- What a command reports when its waiter hears `r`.
pub reported : Text → Text → Result Text (Unit {0}) → Result CommandError (Unit {0})
reported kind device_id (ok u) = ok u
reported kind device_id (err e) = err (phone_reported kind device_id e)

settle-replied :
    (kind d : Text) (g : ℕ) (k : Text) (w : ℕ) (h : Hub) (r : Result Text (Unit {0}))
    → reply_of w h.replies ≡ some r
    → (settle kind d g k w h).0 ≡ reported kind d r
unfolding settle reported
settle-replied kind d g k w h (ok u) e = rw (settle, e) refl
settle-replied kind d g k w h (err m) e = rw (settle, e) refl

send-open :
    (g : ℕ) (f : ServerToPhone) (h : Hub) {c : Conn}
    → find_conn g h.store ≡ some c
    → c.open_end ≡ true
    → send g f h ≡ (true, record h { store = on_conn g (enqueue f) h.store })
unfolding send
send-open g f h s o = rw (send, s, o) refl

module _ (d : Text) (a : Action) (h : Hub) {g : ℕ} {c : Conn} (at : lookup d h.conns ≡ some g)
    (there : find_conn g h.store ≡ some c) (live : c.open_end ≡ true) where
  -- The connection and the hub once the command has its waiter there.
  abbrev queued : Conn
  queued = await_ack (next_cmd_id h).0 h.channels c

  abbrev posted : Hub
  posted = (post_ack g (next_cmd_id h).0 (next_cmd_id h).1).1

  posted-find_conn : find_conn g posted.store ≡ some queued
  unfolding post_ack await_ack
  posted-find_conn =
      find_conn-on_conn g (await_ack (next_cmd_id h).0 h.channels) h.store (λ x. refl) there

  -- The hub while the command waits.
  abbrev pub waiting : Hub
  waiting = record posted { store = on_conn g (enqueue (cmd (next_cmd_id h).0 a)) posted.store }

  sent : send g (cmd (next_cmd_id h).0 a) posted ≡ (true, waiting)
  sent = send-open g _ posted posted-find_conn (unfold await_ack in live)

  waiting-find_conn : find_conn g waiting.store ≡ some (enqueue (cmd (next_cmd_id h).0 a) queued)
  unfolding enqueue
  waiting-find_conn =
      find_conn-on_conn g (enqueue (cmd (next_cmd_id h).0 a)) _ (λ x. refl) posted-find_conn

  waiting-replies : waiting.replies ≡ h.replies
  unfolding post_ack
  waiting-replies = refl

  waiting-conns : waiting.conns ≡ h.conns
  unfolding post_ack
  waiting-conns = refl

  queued-lookup :
      lookup (next_cmd_id h).0 (enqueue (cmd (next_cmd_id h).0 a) queued).acks ≡ some h.channels
  unfolding enqueue await_ack
  queued-lookup = lookup-insert (next_cmd_id h).0 h.channels c.acks

  command-waits :
      (during : Hub → Hub)
      → command d a during h ≡ settle (kind_of a) d g (next_cmd_id h).0 h.channels (during waiting)
  unfolding command post_ack
  command-waits during =
      let sent_true : (send g (cmd (next_cmd_id h).0 a) posted).0 ≡ true = ap (λ r. r.0) sent in
      let sent_hub : (send g (cmd (next_cmd_id h).0 a) posted).1 ≡ waiting = ap (λ r. r.1) sent in
      rw (command, at, sent_true, sent_hub) refl

  -- The reply that the waiting command finds, when the hub has no other for it.
  command-replied :
      (during : Hub → Hub) (r : Result Text (Unit {0}))
      → reply_of h.channels (during waiting).replies ≡ some r
      → (command d a during h).0 ≡ reported (kind_of a) d r
  command-replied during r e =
      ap (λ x. x.0) (command-waits during)
      ∙ settle-replied (kind_of a) d g (next_cmd_id h).0 h.channels (during waiting) r e

  resolved-replies :
      (r : Result Text (Unit {0}))
      → (resolve_ack d (next_cmd_id h).0 r waiting).replies ≡ h.replies ++ ((h.channels, r) ∷ [])
  unfolding resolve_ack
  resolved-replies r =
      rw (resolve_ack, waiting-conns, at, waiting-find_conn, queued-lookup)
        (ap (λ l. l ++ ((h.channels, r) ∷ [])) waiting-replies)

  -- A command that the phone acknowledges while it waits returns what the phone said: success, or
  -- the phone's own reason.
  pub command-resolve_ack :
      (r : Result Text (Unit {0}))
      → Reachable h
      → (command d a (resolve_ack d (next_cmd_id h).0 r) h).0 ≡ reported (kind_of a) d r
  command-resolve_ack r reach = command-replied (resolve_ack d (next_cmd_id h).0 r) r (
      ap (reply_of h.channels) (resolved-replies r)
      ∙ (reply_of-append h.channels h.replies ((h.channels, r) ∷ [])
            (Reachable-unused h.channels reach (omega arith)).0
          ∙ reply_of_first h.channels r []))

  drained-reply :
      (why : Text) (v : Hub)
      → Reachable h
      → v.replies ≡ h.replies
      → find_conn g v.store ≡ some (enqueue (cmd (next_cmd_id h).0 a) queued)
      → reply_of h.channels (drain g why v).replies ≡ some (err why)
  unfolding drain drain_found refuse_all enqueue await_ack insert
  drained-reply why v reach e f =
      rw (drain, f, e)
        (reply_of-append h.channels h.replies _ (Reachable-unused h.channels reach (omega arith)).0
          ∙ reply_of_first h.channels (err why) _)

  -- A command that waits when the phone connects again fails at once, its connection superseded.
  pub command-register :
      Reachable h
      → h.conn_gen ≢ g
      → (command d a (λ v. (register d v).1) h).0
        ≡ reported (kind_of a) d (err (bytes "connection superseded"))
  unfolding register
  command-register reach new =
      command-replied (λ v. (register d v).1) (err (bytes "connection superseded"))
        (rw (register, waiting-conns, at)
          (drained-reply (bytes "connection superseded") (opened d waiting) reach
            (unfold opened in waiting-replies)
            (opened-find_conn g d waiting (unfold post_ack in new) ∙ waiting-find_conn)))

  -- A command that waits when the reaper drops the device fails at once, its phone disconnected.
  pub command-drop_device :
      Reachable h
      → (command d a (drop_device d) h).0
        ≡ reported (kind_of a) d (err (bytes "device disconnected"))
  unfolding drop_device
  command-drop_device reach = command-replied (drop_device d) (err (bytes "device disconnected")) (
      rw (drop_device, waiting-conns, at)
        (drained-reply (bytes "device disconnected")
          (record waiting { conns = erase d waiting.conns }) reach waiting-replies
          waiting-find_conn))
