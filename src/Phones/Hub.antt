-- ===== src/Phones/Hub.antt =====
-- hub.rs: the connections of the phones and the commands that wait for an ack. The connections stand
-- in a store by their generation, since a command keeps the one it was sent on while a newer one
-- takes its place. A oneshot channel is a number; what was sent on one stands in `replies`.
pub mod Sending
pub mod Waiting
pub mod Answers
pub mod Commands
pub mod Current
mod Examples
use dial_f.Prelude.{
  ℕ, ◌+◌, ◌%◌, ◌^◌, Bool, true, false, Option, none, some, List, [], ◌∷◌, ◌++◌, if◌then◌else◌, ◌==◌,
  ltb, length,
}
use dial_f.Prelude.Assoc.{lookup, erase, insert}
use dial_f.Prelude.Outcome.{Result, err}
use dial_f.Prelude.Text.{Text, bytes}
use dial_f.Protocol.{ServerToPhone}

-- WsConn. `open` tells whether the writer still receives from `tx`, and `queue` holds what it has
-- not taken yet.
pub record Conn : Type 0 where
  pub gen : ℕ
  pub queue : List ServerToPhone
  pub open_end : Bool
  pub acks : List (Text × ℕ)

pub record Hub : Type 0 where
  pub store : List Conn
  pub conns : List (Text × ℕ)
  pub seq : ℕ
  pub conn_gen : ℕ
  pub cancels : List ℕ
  pub channels : ℕ
  pub replies : List (ℕ × Result Text (Unit {0}))

-- The capacity of a connection's channel, which `handle_conn` makes.
abbrev pub queue_size : ℕ
queue_size = 64

abbrev pub new_hub : Hub
new_hub = record {
  store = [];
  conns = [];
  seq = 1;
  conn_gen = 1;
  cancels = [];
  channels = 0;
  replies = [];
}

-- An AtomicU64 wraps.
abbrev pub bump : ℕ → ℕ
bump n = (n + 1) % 2 ^ 64

unfoldable pub find_conn : ℕ → List Conn → Option Conn
find_conn g [] = none
find_conn g (c ∷ cs) = let rest = find_conn g cs in if c.gen == g then some c else rest

unfoldable pub on_conn : ℕ → (Conn → Conn) → List Conn → List Conn
on_conn g f [] = []
on_conn g f (c ∷ cs) = let rest = on_conn g f cs in if c.gen == g then f c ∷ cs else c ∷ rest

-- Every waiter that is taken out of `acks` hears `why`.
pub refuse_all : Text → List (Text × ℕ) → List (ℕ × Result Text (Unit {0}))
refuse_all why [] = []
refuse_all why ((k, w) ∷ acks) = (w, err why) ∷ refuse_all why acks

pub without_acks : Conn → Conn
without_acks c = record c { acks = [] }

-- The acks of a connection are drained, when it is there.
pub drain_found : ℕ → Text → Hub → Option Conn → Hub
unfolding on_conn refuse_all without_acks
drain_found g why h none = h
drain_found g why h (some c) = record h {
  store = on_conn g without_acks h.store;
  replies = h.replies ++ refuse_all why c.acks;
}

pub drain : ℕ → Text → Hub → Hub
unfolding find_conn drain_found
drain g why h = drain_found g why h (find_conn g h.store)

abbrev pub notify_one : ℕ → Hub → Hub
notify_one g h = record h { cancels = h.cancels ++ (g ∷ []) }

-- The hub with a new connection for the device.
pub opened : Text → Hub → Hub
unfolding insert
opened device_id h = record h {
  store = record { gen = h.conn_gen; queue = []; open_end = true; acks = [] } ∷ h.store;
  conns = insert device_id h.conn_gen h.conns;
  conn_gen = bump h.conn_gen;
}

-- Hub::register
unfoldable pub register : Text → Hub → ℕ × Hub
unfolding drain lookup opened
register device_id h = elim (lookup device_id h.conns) [
  | none ↦ (h.conn_gen, opened device_id h)
  | some prev ↦ (
    h.conn_gen,
    notify_one prev (drain prev (bytes "connection superseded") (opened device_id h)),
  )
]

-- Hub::unregister
unfoldable pub unregister : Text → ℕ → Hub → Bool × Hub
unfolding drain lookup erase
unregister device_id gen h = elim (lookup device_id h.conns) [
  | none ↦ (false, h)
  | some current ↦
      if current == gen
      then (
        true,
        drain current (bytes "device disconnected") (record h { conns = erase device_id h.conns }),
      )
      else (false, h)
]

-- Hub::drop_device
unfoldable pub drop_device : Text → Hub → Hub
unfolding drain lookup erase
drop_device device_id h = elim (lookup device_id h.conns) [
  | none ↦ h
  | some g ↦
      notify_one g
        (drain g (bytes "device disconnected") (record h { conns = erase device_id h.conns }))
]

unfoldable pub enqueue : ServerToPhone → Conn → Conn
enqueue frame c = record c { queue = c.queue ++ (frame ∷ []) }

-- Hub::send_frame
unfoldable pub send_frame : Text → ServerToPhone → Hub → Hub
unfolding lookup find_conn on_conn enqueue
send_frame device_id frame h = elim (lookup device_id h.conns) [
  | none ↦ h
  | some g ↦ elim (find_conn g h.store) [
    | none ↦ h
    | some c ↦
        if c.open_end
        then (if ltb (length c.queue) queue_size
            then record h { store = on_conn g (enqueue frame) h.store }
            else h)
        else h
  ]
]

unfoldable pub forget : Text → Conn → Conn
unfolding erase
forget cmd_id c = record c { acks = erase cmd_id c.acks }

-- Hub::resolve_ack
unfoldable pub resolve_ack : Text → Text → Result Text (Unit {0}) → Hub → Hub
unfolding lookup find_conn on_conn forget
resolve_ack device_id cmd_id result h = elim (lookup device_id h.conns) [
  | none ↦ h
  | some g ↦ elim (find_conn g h.store) [
    | none ↦ h
    | some c ↦ elim (lookup cmd_id c.acks) [
      | none ↦ h
      | some w ↦ record h {
        store = on_conn g (forget cmd_id) h.store;
        replies = h.replies ++ ((w, result) ∷ []);
      }
    ]
  ]
]
