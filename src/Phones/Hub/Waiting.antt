-- ===== src/Phones/Hub/Waiting.antt =====
-- hub.rs: what becomes of the waiters, the sending ends of the channels that commands wait on.
use dial_f.Prelude.{
  ℕ, ◌+◌, ◌≤◌, ◌≡◌, refl, ap, ◌∙◌, inl, inr, Option, none, some, List, [], ◌∷◌, ◌++◌, Bool-cases,
  Option-cases, arith, if◌then◌else◌, ◌==◌,
}
use dial_f.Prelude.Assoc.{lookup, erase, insert}
use dial_f.Prelude.Outcome.{Result}
use dial_f.Prelude.Text.{Text}
use dial_f.Protocol.{ServerToPhone}
use dial_f.Phones.Hub.{
  Conn, Hub, find_conn, on_conn, refuse_all, without_acks, drain, drain_found, opened, register,
  unregister, drop_device, enqueue, send_frame, forget, resolve_ack,
}
use dial_f.Phones.Hub.Sending.{await_ack, post_ack, withdraw, send}

-- How often the channel `w` waits among the acks of one connection, and of all, and how often
-- something was sent on it.
unfoldable pub waits : ℕ → List (Text × ℕ) → ℕ
waits w [] = 0
waits w ((k, w') ∷ acks) = (if w' == w then 1 else 0) + waits w acks

unfoldable pub pending : ℕ → List Conn → ℕ
unfolding waits
pending w [] = 0
pending w (c ∷ cs) = waits w c.acks + pending w cs

unfoldable pub answered : ℕ → List (ℕ × Result Text (Unit {0})) → ℕ
answered w [] = 0
answered w ((w', r) ∷ rs) = (if w' == w then 1 else 0) + answered w rs

unfoldable pub held : ℕ → Hub → ℕ
unfolding pending answered
held w h = pending w h.store + answered w h.replies

pub answered-append :
    (w : ℕ) (rs ss : List (ℕ × Result Text (Unit {0})))
    → answered w (rs ++ ss) ≡ answered w rs + answered w ss
unfolding answered
answered-append w [] ss = omega arith
answered-append w ((w', r) ∷ rs) ss = omega (arith, answered-append w rs ss)

pub answered-refuse_all :
    (w : ℕ) (why : Text) (acks : List (Text × ℕ)) → answered w (refuse_all why acks) ≡ waits w acks
unfolding answered refuse_all waits
answered-refuse_all w why [] = refl
answered-refuse_all w why ((k, w') ∷ acks) = omega (arith, answered-refuse_all w why acks)

waits-erase : (w : ℕ) (k : Text) (acks : List (Text × ℕ)) → waits w (erase k acks) ≤ waits w acks
unfolding waits erase
waits-erase w k [] = omega arith
waits-erase w k ((k', w') ∷ acks) = ground (arith, waits-erase w k acks)

waits-lookup :
    (w : ℕ) (k : Text) (v : ℕ) (acks : List (Text × ℕ))
    → lookup k acks ≡ some v
    → waits w (erase k acks) + (if v == w then 1 else 0) ≤ waits w acks
unfolding waits erase lookup
waits-lookup w k v [] h = cc
waits-lookup w k v ((k', w') ∷ acks) h =
    ground (arith, waits-erase w k acks, waits-lookup w k v acks)

-- Changing a connection changes the total by what it changes there.
pub pending-on_conn :
    (w g : ℕ) (f : Conn → Conn) (cs : List Conn) {c : Conn}
    → find_conn g cs ≡ some c
    → pending w (on_conn g f cs) + waits w c.acks ≡ pending w cs + waits w (f c).acks
unfolding pending on_conn find_conn
pending-on_conn w g f [] h = cc
pending-on_conn w g f (c' ∷ cs) {c} h = elim (Bool-cases (c'.gen == g)) [
  | inl e ↦ let q : c' ≡ c = ground arith in rw e (rw q (omega arith))
  | inr e ↦ rw e (omega (arith, pending-on_conn w g f cs {c = c} (ground arith)))
]

on_conn-none :
    (g : ℕ) (f : Conn → Conn) (cs : List Conn) → find_conn g cs ≡ none → on_conn g f cs ≡ cs
unfolding on_conn find_conn
on_conn-none g f [] h = refl
on_conn-none g f (c ∷ cs) h = elim (Bool-cases (c.gen == g)) [
  | inl e ↦ absurd (ground arith)
  | inr e ↦ rw e (ap (λ l. c ∷ l) (on_conn-none g f cs (ground arith)))
]

-- A change that adds at most `k` waiters to a connection adds no more to the total.
pub pending-on_conn_le :
    (w g k : ℕ) (f : Conn → Conn) (cs : List Conn)
    → ((c : Conn) → waits w (f c).acks ≤ waits w c.acks + k)
    → pending w (on_conn g f cs) ≤ pending w cs + k
pending-on_conn_le w g k f cs h = elim (Option-cases (find_conn g cs)) [
  | inl n ↦ rw (on_conn-none g f cs n) (omega arith)
  | inr (c, s) ↦ omega (arith, pending-on_conn w g f cs s, h c)
]

waits-without_acks : (w : ℕ) (c : Conn) → waits w (without_acks c).acks ≡ 0
unfolding waits without_acks
waits-without_acks w c = refl

-- What draining does to a store in which the connection is looked up as `o`.
drained-held :
    (w g : ℕ) (why : Text) (h : Hub) (o : Option Conn)
    → find_conn g h.store ≡ o
    → held w (drain_found g why h o) ≡ held w h
unfolding held drain_found
drained-held w g why h none n = refl
drained-held w g why h (some c) s = omega (
  arith,
  pending-on_conn w g without_acks h.store s,
  waits-without_acks w c,
  answered-append w h.replies (refuse_all why c.acks),
  answered-refuse_all w why c.acks,
)

drain-held : (w g : ℕ) (why : Text) (h : Hub) → held w (drain g why h) ≡ held w h
unfolding drain
drain-held w g why h = drained-held w g why h (find_conn g h.store) refl

pub answered_one :
    (w v : ℕ) (r : Result Text (Unit {0})) → answered w ((v, r) ∷ []) ≡ (if v == w then 1 else 0)
unfolding answered
answered_one w v r = omega arith

pub register-held : (w : ℕ) (d : Text) (h : Hub) → held w (register d h).1 ≡ held w h
unfolding register held pending waits opened
register-held w d h = elim (Option-cases (lookup d h.conns)) [
  | inl n ↦ rw (n, register) (omega arith)
  | inr (g, s) ↦
      rw (s, register) (drain-held w g _ (opened d h) ∙ unfold opened held in omega arith)
]

pub unregister-held : (w : ℕ) (d : Text) (g : ℕ) (h : Hub) → held w (unregister d g h).1 ≡ held w h
unfolding unregister held
unregister-held w d g h = elim (Option-cases (lookup d h.conns)) [
  | inl n ↦ rw (n, unregister) refl
  | inr (c, s) ↦ elim (Bool-cases (c == g)) [
    | inl e ↦ rw (s, unregister, e) (drain-held w c _ _)
    | inr e ↦ rw (s, unregister, e) refl
  ]
]

pub drop_device-held : (w : ℕ) (d : Text) (h : Hub) → held w (drop_device d h) ≡ held w h
unfolding drop_device held
drop_device-held w d h = elim (Option-cases (lookup d h.conns)) [
  | inl n ↦ rw (n, drop_device) refl
  | inr (g, s) ↦ rw (s, drop_device) (drain-held w g _ _)
]

pub withdraw-held : (w g : ℕ) (k : Text) (h : Hub) → held w (withdraw g k h) ≤ held w h
unfolding withdraw held
withdraw-held w g k h = omega (
  arith,
  pending-on_conn_le w g 0 (forget k) h.store
      (λ c. unfold forget in omega (arith, waits-erase w k c.acks)),
)

enqueue-le :
    (w g : ℕ) (f : ServerToPhone) (cs : List Conn)
    → pending w (on_conn g (enqueue f) cs) ≤ pending w cs + 0
enqueue-le w g f cs = pending-on_conn_le w g 0 (enqueue f) cs (λ c. unfold enqueue in omega arith)

pub send-held : (w g : ℕ) (f : ServerToPhone) (h : Hub) → held w (send g f h).1 ≤ held w h
unfolding send held
send-held w g f h = ground (arith, enqueue-le w g f h.store)

pub send_frame-held :
    (w : ℕ) (d : Text) (f : ServerToPhone) (h : Hub) → held w (send_frame d f h) ≤ held w h
unfolding send_frame held
send_frame-held w d f h = elim (Option-cases (lookup d h.conns)) [
  | inl n ↦ rw (n, send_frame) (omega arith)
  | inr (g, s) ↦ rw (s, send_frame) (ground (arith, enqueue-le w g f h.store))
]

pub resolve_ack-held :
    (w : ℕ) (d k : Text) (r : Result Text (Unit {0})) (h : Hub)
    → held w (resolve_ack d k r h) ≤ held w h
unfolding resolve_ack held
resolve_ack-held w d k r h = elim (Option-cases (lookup d h.conns)) [
  | inl n ↦ rw (n, resolve_ack) (omega arith)
  | inr (g, s) ↦ elim (Option-cases (find_conn g h.store)) [
    | inl n ↦ rw (resolve_ack, s, n) (omega arith)
    | inr (c, f) ↦ elim (Option-cases (lookup k c.acks)) [
      | inl n ↦ rw (resolve_ack, s, f, n) (omega arith)
      | inr (v, l) ↦
          rw (resolve_ack, s, f, l)
            (omega (
              arith,
              pending-on_conn w g (forget k) h.store f,
              waits-lookup w k v c.acks l,
              answered-append w h.replies ((v, r) ∷ []),
              answered_one w v r,
            ))
    ]
  ]
]

pub post_ack-held :
    (w g : ℕ) (k : Text) (h : Hub)
    → held w (post_ack g k h).1 ≤ held w h + (if h.channels == w then 1 else 0)
unfolding post_ack held
post_ack-held w g k h = omega (
  arith,
  pending-on_conn_le w g (if h.channels == w then 1 else 0) (await_ack k h.channels) h.store
      (λ c. unfold await_ack insert waits in omega (arith, waits-erase w k c.acks)),
)
