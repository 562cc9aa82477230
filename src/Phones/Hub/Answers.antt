-- ===== src/Phones/Hub/Answers.antt =====
-- hub.rs: each command is answered at most once, whatever the tasks of the daemon do to the hub.
use dial_f.Prelude.{
  ℕ, ◌+◌, ◌≤◌, ◌≡◌, refl, inl, inr, Option, none, some, Bool-cases, Option-cases, arith,
  if◌then◌else◌, ◌==◌, ltb,
}
use dial_f.Prelude.Assoc.{lookup}
use dial_f.Prelude.Outcome.{Result}
use dial_f.Prelude.Text.{Text}
use dial_f.Protocol.{ServerToPhone}
use dial_f.Phones.Hub.{
  Conn, Hub, new_hub, find_conn, drain, drain_found, opened, register, unregister, drop_device,
  send_frame, resolve_ack,
}
use dial_f.Phones.Hub.Sending.{
  post_ack, withdraw, send, take_frame, dequeue, close, shut, next_cmd_id,
}
use dial_f.Phones.Hub.Waiting.{
  pending, answered, held, register-held, unregister-held, drop_device-held, withdraw-held,
  send-held, send_frame-held, resolve_ack-held, post_ack-held, pending-on_conn_le,
}

-- What the tasks of the daemon can do to the hub, in any order.
pub data Step : Hub → Hub → Type 0 where
  registers : {h : Hub} → (d : Text) → Step h (register d h).1
  unregisters : {h : Hub} → (d : Text) → (g : ℕ) → Step h (unregister d g h).1
  drops : {h : Hub} → (d : Text) → Step h (drop_device d h)
  frames : {h : Hub} → (d : Text) → (f : ServerToPhone) → Step h (send_frame d f h)
  resolves : {h : Hub} → (d k : Text) → (r : Result Text (Unit {0})) → Step h (resolve_ack d k r h)
  numbers : {h : Hub} → Step h (next_cmd_id h).1
  posts : {h : Hub} → (g : ℕ) → (k : Text) → Step h (post_ack g k h).1
  withdraws : {h : Hub} → (g : ℕ) → (k : Text) → Step h (withdraw g k h)
  sends : {h : Hub} → (g : ℕ) → (f : ServerToPhone) → Step h (send g f h).1
  writes : {h : Hub} → (g : ℕ) → Step h (take_frame g h)
  closes : {h : Hub} → (g : ℕ) → Step h (close g h)

pub data Reachable : Hub → Type 0 where
  at_start : Reachable new_hub
  after : {h h' : Hub} → Step h h' → Reachable h → Reachable h'

-- Of the channels made so far each is held at most once, and no other is held.
abbrev pub IsFair : Hub → Type 0
IsFair h = (w : ℕ) → held w h ≤ (if ltb w h.channels then 1 else 0)

drain-channels : (g : ℕ) (why : Text) (h : Hub) → (drain g why h).channels ≡ h.channels
unfolding drain drain_found
drain-channels g why h = go (find_conn g h.store)
  where
    go : (o : Option Conn) → (drain_found g why h o).channels ≡ h.channels
    go none = refl
    go (some c) = refl

register-channels : (d : Text) (h : Hub) → (register d h).1.channels ≡ h.channels
unfolding register opened
register-channels d h = elim (Option-cases (lookup d h.conns)) [
  | inl n ↦ rw (n, register) refl
  | inr (g, s) ↦ rw (s, register) (drain-channels g _ (opened d h))
]

unregister-channels : (d : Text) (g : ℕ) (h : Hub) → (unregister d g h).1.channels ≡ h.channels
unfolding unregister
unregister-channels d g h = elim (Option-cases (lookup d h.conns)) [
  | inl n ↦ rw (n, unregister) refl
  | inr (c, s) ↦ elim (Bool-cases (c == g)) [
    | inl e ↦ rw (s, unregister, e) (drain-channels c _ _)
    | inr e ↦ rw (s, unregister, e) refl
  ]
]

drop_device-channels : (d : Text) (h : Hub) → (drop_device d h).channels ≡ h.channels
unfolding drop_device
drop_device-channels d h = elim (Option-cases (lookup d h.conns)) [
  | inl n ↦ rw (n, drop_device) refl
  | inr (g, s) ↦ rw (s, drop_device) (drain-channels g _ _)
]

send_frame-channels :
    (d : Text) (f : ServerToPhone) (h : Hub) → (send_frame d f h).channels ≡ h.channels
unfolding send_frame
send_frame-channels d f h = ground arith

resolve_ack-channels :
    (d k : Text) (r : Result Text (Unit {0})) (h : Hub)
    → (resolve_ack d k r h).channels ≡ h.channels
unfolding resolve_ack
resolve_ack-channels d k r h = ground arith

send-channels : (g : ℕ) (f : ServerToPhone) (h : Hub) → (send g f h).1.channels ≡ h.channels
unfolding send
send-channels g f h = ground arith

close-held : (w g : ℕ) (h : Hub) → held w (close g h) ≤ held w h
unfolding close held
close-held w g h = omega (arith, pending-on_conn_le w g 0 shut h.store (λ c. omega arith))

take_frame-held : (w g : ℕ) (h : Hub) → held w (take_frame g h) ≤ held w h
unfolding take_frame held
take_frame-held w g h = omega (arith, pending-on_conn_le w g 0 dequeue h.store (λ c. omega arith))

-- A step that makes no channel and adds no waiter.
kept :
    (h h' : Hub)
    → h'.channels ≡ h.channels
    → ((w : ℕ) → held w h' ≤ held w h)
    → IsFair h
    → IsFair h'
unfolding held
kept h h' e le f w = rw e (omega (arith, le w, f w))

Step-IsFair : {h h' : Hub} → Step h h' → IsFair h → IsFair h'
Step-IsFair {h} {h'} (registers d) f =
    kept h h' (register-channels d h) (λ w. omega (arith, register-held w d h)) f
Step-IsFair {h} {h'} (unregisters d g) f =
    kept h h' (unregister-channels d g h) (λ w. omega (arith, unregister-held w d g h)) f
Step-IsFair {h} {h'} (drops d) f =
    kept h h' (drop_device-channels d h) (λ w. omega (arith, drop_device-held w d h)) f
Step-IsFair {h} {h'} (frames d m) f =
    kept h h' (send_frame-channels d m h) (λ w. send_frame-held w d m h) f
Step-IsFair {h} {h'} (resolves d k r) f =
    kept h h' (resolve_ack-channels d k r h) (λ w. resolve_ack-held w d k r h) f
Step-IsFair {h} {h'} numbers f = kept h h' refl (λ w. unfold held in omega arith) f
Step-IsFair {h} {h'} (posts g k) f =
    λ w. unfold post_ack in ground (arith, post_ack-held w g k h, f w)
Step-IsFair {h} {h'} (withdraws g k) f =
    kept h h' (unfold withdraw in refl) (λ w. withdraw-held w g k h) f
Step-IsFair {h} {h'} (sends g m) f = kept h h' (send-channels g m h) (λ w. send-held w g m h) f
Step-IsFair {h} {h'} (writes g) f =
    kept h h' (unfold take_frame in refl) (λ w. take_frame-held w g h) f
Step-IsFair {h} {h'} (closes g) f = kept h h' (unfold close in refl) (λ w. close-held w g h) f

Reachable-IsFair : {h : Hub} → Reachable h → IsFair h
Reachable-IsFair at_start w = unfold held pending answered in omega arith
Reachable-IsFair (after s r) w = Step-IsFair s (Reachable-IsFair r) w

-- In whatever order the tasks of the daemon act on the hub: on the channel of a command at most one
-- reply is sent, and once it is, no connection still holds the command's waiter.
pub Reachable-answered :
    {h : Hub} (w : ℕ) → Reachable h → answered w h.replies + pending w h.store ≤ 1
unfolding held
Reachable-answered {h} w r = let f = Reachable-IsFair r w in ground arith

-- A channel that is still to be made waits nowhere, and nothing was sent on it.
pub Reachable-unused :
    {h : Hub} (w : ℕ)
    → Reachable h
    → h.channels ≤ w
    → (answered w h.replies ≡ 0) × (pending w h.store ≡ 0)
unfolding held
Reachable-unused {h} w r l = let f = Reachable-IsFair r w in ground arith
