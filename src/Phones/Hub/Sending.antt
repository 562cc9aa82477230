-- ===== src/Phones/Hub/Sending.antt =====
-- hub.rs: sending commands and waiting for their acks.
use dial_f.Prelude.{
  ℕ, ◌+◌, Bool, true, false, Option, none, some, List, [], ◌∷◌, ◌++◌, if◌then◌else◌, ◌==◌,
}
use dial_f.Prelude.Assoc.{lookup, insert}
use dial_f.Prelude.Outcome.{Result, ok, err}
use dial_f.Prelude.Text.{Text, bytes, decimal}
use dial_f.Protocol.{Action, ServerToPhone, cmd, kind_of}
use dial_f.Phones.Hub.{Conn, Hub, bump, enqueue, find_conn, forget, on_conn}

-- Hub::next_cmd_id
abbrev pub next_cmd_id : Hub → Text × Hub
next_cmd_id h = (bytes "c-" ++ decimal h.seq, record h { seq = bump h.seq })

-- `conn.acks.insert(cmd_id, ack_tx)` with the sending end of a new oneshot channel.
unfoldable pub await_ack : Text → ℕ → Conn → Conn
unfolding insert
await_ack cmd_id w c = record c { acks = insert cmd_id w c.acks }

unfoldable pub post_ack : ℕ → Text → Hub → ℕ × Hub
unfolding on_conn await_ack
post_ack g cmd_id h = (
  h.channels,
  record h { store = on_conn g (await_ack cmd_id h.channels) h.store; channels = h.channels + 1 },
)

-- `conn.acks.remove(&cmd_id)`
unfoldable pub withdraw : ℕ → Text → Hub → Hub
unfolding on_conn forget
withdraw g cmd_id h = record h { store = on_conn g (forget cmd_id) h.store }

-- `conn.tx.send(frame)`: false when nobody receives any more.
unfoldable pub send : ℕ → ServerToPhone → Hub → Bool × Hub
unfolding find_conn on_conn enqueue
send g frame h = elim (find_conn g h.store) [
  | none ↦ (false, h)
  | some c ↦
      if c.open_end
      then (true, record h { store = on_conn g (enqueue frame) h.store })
      else (false, h)
]

abbrev pub dequeue : Conn → Conn
dequeue c = record c { queue = elim c.queue [ [] ↦ [] | frame ∷ rest ↦ rest ] }

-- The writer of a connection takes the frame that has waited longest off the queue.
unfoldable pub take_frame : ℕ → Hub → Hub
unfolding on_conn
take_frame g h = record h { store = on_conn g dequeue h.store }

abbrev pub shut : Conn → Conn
shut c = record c { open_end = false }

-- The writer of a connection ends: `tx` has no receiver any more.
unfoldable pub close : ℕ → Hub → Hub
unfolding on_conn
close g h = record h { store = on_conn g shut h.store }

-- What was sent on a oneshot channel.
unfoldable pub reply_of : ℕ → List (ℕ × Result Text (Unit {0})) → Option (Result Text (Unit {0}))
reply_of w [] = none
reply_of w ((w', r) ∷ rs) = let rest = reply_of w rs in if w' == w then some r else rest

unfoldable pub holds : ℕ → List (Text × ℕ) → Bool
holds w [] = false
holds w ((k, w') ∷ acks) = let rest = holds w acks in if w' == w then true else rest

-- The sending end of a channel still stands in some connection.
unfoldable pub held_by : ℕ → List Conn → Bool
unfolding holds
held_by w [] = false
held_by w (c ∷ cs) = let rest = held_by w cs in if holds w c.acks then true else rest

pub data CommandError : Type 0 where
  not_connected : (device_id : Text) → CommandError
  channel_closed phone_reported timed_out ack_dropped :
      (kind device_id detail : Text) → CommandError

-- What a command returns once its ack has come, its channel is dropped or its time is over.
unfoldable pub settle : Text → Text → ℕ → Text → ℕ → Hub → Result CommandError (Unit {0}) × Hub
unfolding reply_of held_by withdraw
settle kind device_id g cmd_id w h = elim (reply_of w h.replies) [
  | some (ok u) ↦ (ok u, h)
  | some (err e) ↦ (err (phone_reported kind device_id e), h)
  | none ↦
      if held_by w h.store
      then (err (timed_out kind device_id []), withdraw g cmd_id h)
      else (err (ack_dropped kind device_id []), h)
]

-- Hub::command. `during` stands for what the other tasks do to the hub while it waits, until the
-- ack comes or 10 s are over.
unfoldable pub command : Text → Action → (Hub → Hub) → Hub → Result CommandError (Unit {0}) × Hub
unfolding lookup post_ack send withdraw settle kind_of
command device_id action during h = elim (lookup device_id h.conns) [
  | none ↦ (err (not_connected device_id), h)
  | some g ↦
      let (cmd_id, h1) = next_cmd_id h in
      let (w, h2) = post_ack g cmd_id h1 in
      let (sent, h3) = send g (cmd cmd_id action) h2 in
      if sent
      then settle (kind_of action) device_id g cmd_id w (during h3)
      else (err (channel_closed (kind_of action) device_id []), withdraw g cmd_id h3)
]

-- Hub::fire
unfoldable pub fire : Text → Action → Hub → Result CommandError (Unit {0}) × Hub
unfolding lookup send
fire device_id action h = elim (lookup device_id h.conns) [
  | none ↦ (err (not_connected device_id), h)
  | some g ↦
      let (cmd_id, h1) = next_cmd_id h in
      let (sent, h2) = send g (cmd cmd_id action) h1 in
      if sent then (ok tt, h2) else (err (channel_closed [] device_id []), h2)
]
