-- ===== src/Share/Adb/Wire/Gate.antt =====
-- share/adb.rs: what the gate writes to the adb server, whatever the two sides send.
use dial_f.Prelude.{
  ℕ, zero, suc, ◌≡◌, refl, ap, ◌∙◌, ◌⊎◌, inl, inr, Bool, true, false, some, ◌++◌, arith, Bool-cases,
  length,
}
use dial_f.Prelude.Outcome.{Result, ok, err}
use dial_f.Prelude.Text.{Text, bytes, text_eq}
use dial_f.Prelude.Text.Utf8.{from_utf8_lossy}
use dial_f.Share.Adb.{
  Targets, Decision, forward, rewrite, filter_list, reject, decide, upstream_request, sent,
}
use dial_f.Share.Adb.Confinement.{
  IsHarmless, IsConfined, upstream_request-IsHarmless, upstream_request-IsConfined,
}
use dial_f.Share.Adb.Devices.{filter_device_list}
use dial_f.Share.Adb.Wire.{
  Wires, Wire, continue, read_down, read_up, WireError, read_message, read_payload, read_sized,
  relay_status, done, message_length, frame, write_fail, relay_lists, relay_round,
  relay_filtered_list, act, gate,
}

abbrev SameUp : Wires → Wires → Type 0
SameUp w w' = (w'.up_out ≡ w.up_out) × (w'.spliced ≡ w.spliced)

abbrev KeepsUp : Wires → Wires → Type 0
KeepsUp w w' = w'.up_out ≡ w.up_out

-- Reading a message leaves alone whatever reading bytes leaves alone.
module _ {X : Type 0} (view : Wires → X) (read : ℕ → Wire Text)
    (keeps : (n : ℕ) (w : Wires) → view (read n w).1 ≡ view w) where
  finish-keeps :
      (r : Result WireError Text) (w : Wires)
      → view (continue r (λ s. done (from_utf8_lossy s)) w).1 ≡ view w
  finish-keeps (ok s) w = refl
  finish-keeps (err e) w = refl

  read_payload-keeps :
      (r : Result WireError ℕ) (w : Wires) → view (read_payload read r w).1 ≡ view w
  unfolding read_payload
  read_payload-keeps (err e) w = refl
  read_payload-keeps (ok n) w = finish-keeps (read n w).0 (read n w).1 ∙ keeps n w

  read_sized-keeps : (r : Result WireError Text) (w : Wires) → view (read_sized read r w).1 ≡ view w
  unfolding read_sized
  read_sized-keeps (err e) w = refl
  read_sized-keeps (ok prefix) w = read_payload-keeps (message_length prefix) w

  read_message-keeps : (w : Wires) → view (read_message read w).1 ≡ view w
  unfolding read_message
  read_message-keeps w = read_sized-keeps (read 4 w).0 (read 4 w).1 ∙ keeps 4 w

read_down-up_out : (n : ℕ) (w : Wires) → (read_down n w).1.up_out ≡ w.up_out
read_down-up_out n w = ground arith

read_down-spliced : (n : ℕ) (w : Wires) → (read_down n w).1.spliced ≡ w.spliced
read_down-spliced n w = ground arith

read_up-up_out : (n : ℕ) (w : Wires) → (read_up n w).1.up_out ≡ w.up_out
read_up-up_out n w = ground arith

request-SameUp : (w : Wires) → SameUp w (read_message read_down w).1
request-SameUp w = (
  read_message-keeps (λ v. v.up_out) read_down read_down-up_out w,
  read_message-keeps (λ v. v.spliced) read_down read_down-spliced w,
)

relay_round-KeepsUp :
    (t : Targets) (again : Wire (Unit {0}))
    → ((w : Wires) → KeepsUp w (again w).1)
    → (b : Bool) (r : Result WireError Text) (w : Wires) → KeepsUp w (relay_round t again b r w).1
unfolding relay_round
relay_round-KeepsUp t again k b (err e) w = refl
relay_round-KeepsUp t again k true (ok payload) w =
    k (record w { down_out = w.down_out ++ frame (filter_device_list payload t) })
relay_round-KeepsUp t again k false (ok payload) w = refl

relay_lists-KeepsUp :
    (fuel : ℕ) (t : Targets) (streaming : Bool) (w : Wires)
    → KeepsUp w (relay_lists fuel t streaming w).1
unfolding relay_lists
relay_lists-KeepsUp zero t streaming w = refl
relay_lists-KeepsUp (suc fuel) t streaming w =
    relay_round-KeepsUp t (relay_lists fuel t streaming) (relay_lists-KeepsUp fuel t streaming)
      streaming (read_message read_up w).0 (read_message read_up w).1
    ∙ read_message-keeps (λ v. v.up_out) read_up read_up-up_out w

relay_status-KeepsUp :
    (t : Targets) (streaming : Bool) (r : Result WireError Text) (w : Wires)
    → KeepsUp w (relay_status t streaming r w).1
unfolding relay_status
relay_status-KeepsUp t streaming (err e) w = refl
relay_status-KeepsUp t streaming (ok status) w =
    let v : Wires = record w { down_out = w.down_out ++ status } in
    elim (Bool-cases (text_eq status (bytes "OKAY"))) [
      | inl b ↦ rw b (relay_lists-KeepsUp (suc (length v.up_in)) t streaming v)
      | inr b ↦ rw b refl
    ]

relay_filtered_list-KeepsUp :
    (t : Targets) (streaming : Bool) (w : Wires) → KeepsUp w (relay_filtered_list t streaming w).1
unfolding relay_filtered_list
relay_filtered_list-KeepsUp t streaming w =
    relay_status-KeepsUp t streaming (read_up 4 w).0 (read_up 4 w).1 ∙ read_up-up_out 4 w

-- Nothing was written to the adb server and the sockets are not joined; or what the policy makes of
-- the request that was read was written, and nothing else.
abbrev pub Guarded : Targets → Result WireError Text → Wires → Wires → Type 0
Guarded t r w w' =
    ((w'.up_out ≡ w.up_out) × (w'.spliced ≡ w.spliced))
    ⊎ ((request q : Text) × (r ≡ ok request)
        × (upstream_request request t ≡ some q)
        × (w'.up_out ≡ w.up_out ++ frame q))

act-Guarded :
    (t : Targets) (request : Text) (d : Decision) (w : Wires)
    → decide request t ≡ d
    → Guarded t (ok request) w (act request t d w).1
unfolding act upstream_request
act-Guarded t request (reject reason) w e = inl (unfold write_fail in (refl, refl))
act-Guarded t request (rewrite q) w e = inr (request, q, refl, ap (sent request) e, refl)
act-Guarded t request forward w e = inr (request, request, refl, ap (sent request) e, refl)
act-Guarded t request (filter_list streaming) w e = inr (
  request,
  request,
  refl,
  ap (sent request) e,
  relay_filtered_list-KeepsUp t streaming (record w { up_out = w.up_out ++ frame request }),
)

step-Guarded :
    (t : Targets) (r : Result WireError Text) (w v : Wires)
    → SameUp w v
    → Guarded t r w (continue r (λ request. act request t (decide request t)) v).1
step-Guarded t (err e) w v s = inl s
step-Guarded t (ok request) w v s = elim (act-Guarded t request (decide request t) v refl) [
  | inl k ↦ inl (k.0 ∙ s.0, k.1 ∙ s.1)
  | inr (r, q, o, e, k) ↦ inr (r, q, o, e, k ∙ ap (λ u. u ++ frame q) s.0)
]

gate-Guarded : (t : Targets) (w : Wires) → Guarded t (read_message read_down w).0 w (gate t w).1
unfolding gate
gate-Guarded t w =
    step-Guarded t (read_message read_down w).0 w (read_message read_down w).1 (request-SameUp w)

-- Whatever both sides send, a connection has the gate either write nothing to the adb server and
-- leave the sockets apart, or write exactly one message, which is what the policy makes of the request
-- that was read from the peer. That message is not `host:kill` (NUL bytes behind it left away) and
-- begins with neither `host:connect:` nor `host:disconnect`. By `host:transport:` or
-- `host:tport:serial:` it names only a serial that is shared (NUL bytes behind it left away), and by
-- `host-serial:` only one that is shared and followed by a colon, unless all devices are shared.
pub gate_lem :
    (t : Targets) (w : Wires)
    → (((gate t w).1.up_out ≡ w.up_out) × ((gate t w).1.spliced ≡ w.spliced))
      ⊎ ((request q : Text) × ((read_message read_down w).0 ≡ ok request)
          × (upstream_request request t ≡ some q)
          × IsHarmless q
          × IsConfined t q
          × ((gate t w).1.up_out ≡ w.up_out ++ frame q))
gate_lem t w = elim (gate-Guarded t w) [
  | inl k ↦ inl k
  | inr (r, q, o, e, k) ↦
      inr (r, q, o, e, upstream_request-IsHarmless r t e, upstream_request-IsConfined r t e, k)
]
