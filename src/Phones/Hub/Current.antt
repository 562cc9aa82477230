-- ===== src/Phones/Hub/Current.antt =====
-- hub.rs: which connection is the one of a device.
use dial_f.Prelude.{
  ℕ, ◌≡◌, ◌≢◌, ◌⊎◌, refl, sym, ap, ◌∙◌, inl, inr, true, false, Option, none, some, Bool-cases,
  Option-cases, arith, ◌==◌,
}
use dial_f.Prelude.Assoc.{
  lookup, erase, insert, lookup-insert, lookup-insert_other, lookup-erase, lookup-erase_other,
}
use dial_f.Prelude.Outcome.{Result}
use dial_f.Prelude.Text.{Text, bytes}
use dial_f.Protocol.{ServerToPhone}
use dial_f.Phones.Hub.{
  Conn, Hub, find_conn, drain, drain_found, opened, register, unregister, drop_device, send_frame,
  resolve_ack,
}
use dial_f.Phones.Hub.Sending.{post_ack, withdraw, send, take_frame, close, next_cmd_id}

-- What can happen while connection `g` stays the one of device `d`: other devices come and go, older
-- connections of `d` are torn down, and commands and acks run.
pub data Undisturbed (d : Text) (g : ℕ) : Hub → Hub → Type 0 where
  nothing : {h : Hub} → Undisturbed d g h h
  registers :
      {h h' : Hub} → (e : Text) → d ≢ e → Undisturbed d g h h' → Undisturbed d g h (register e h').1
  unregisters :
      {h h' : Hub}
      → (e : Text) → (k : ℕ) → d ≢ e ⊎ (k ≢ g)
      → Undisturbed d g h h'
      → Undisturbed d g h (unregister e k h').1
  drops :
      {h h' : Hub}
      → (e : Text) → d ≢ e
      → Undisturbed d g h h'
      → Undisturbed d g h (drop_device e h')
  frames :
      {h h' : Hub}
      → (e : Text) → (f : ServerToPhone) → Undisturbed d g h h'
      → Undisturbed d g h (send_frame e f h')
  resolves :
      {h h' : Hub}
      → (e k : Text) → (r : Result Text (Unit {0})) → Undisturbed d g h h'
      → Undisturbed d g h (resolve_ack e k r h')
  numbers : {h h' : Hub} → Undisturbed d g h h' → Undisturbed d g h (next_cmd_id h').1
  posts :
      {h h' : Hub}
      → (k : ℕ) → (c : Text) → Undisturbed d g h h'
      → Undisturbed d g h (post_ack k c h').1
  withdraws :
      {h h' : Hub}
      → (k : ℕ) → (c : Text) → Undisturbed d g h h'
      → Undisturbed d g h (withdraw k c h')
  sends :
      {h h' : Hub}
      → (k : ℕ) → (f : ServerToPhone) → Undisturbed d g h h'
      → Undisturbed d g h (send k f h').1
  writes : {h h' : Hub} → (k : ℕ) → Undisturbed d g h h' → Undisturbed d g h (take_frame k h')
  closes : {h h' : Hub} → (k : ℕ) → Undisturbed d g h h' → Undisturbed d g h (close k h')

drain-conns : (g : ℕ) (why : Text) (h : Hub) → (drain g why h).conns ≡ h.conns
unfolding drain drain_found
drain-conns g why h = go (find_conn g h.store)
  where
    go : (o : Option Conn) → (drain_found g why h o).conns ≡ h.conns
    go none = refl
    go (some c) = refl

-- A registered connection is the one of its device.
pub register-conns : (d : Text) (h : Hub) → (register d h).1.conns ≡ insert d h.conn_gen h.conns
unfolding register opened
register-conns d h = elim (Option-cases (lookup d h.conns)) [
  | inl n ↦ rw (n, register) refl
  | inr (g, s) ↦ rw (s, register) (drain-conns g _ (opened d h))
]

unregister-conns :
    (d e : Text) (g k : ℕ) (h : Hub)
    → d ≢ e ⊎ (k ≢ g)
    → lookup d h.conns ≡ some g
    → lookup d (unregister e k h).1.conns ≡ some g
unfolding unregister
unregister-conns d e g k h n at = elim (Option-cases (lookup e h.conns)) [
  | inl m ↦ rw (m, unregister) at
  | inr (c, s) ↦ elim (Bool-cases (c == k)) [
    | inl q ↦
        rw (unregister, s, q)
          (ap (lookup d) (drain-conns c _ (record h { conns = erase e h.conns }))
            ∙ (lookup-erase_other d e h.conns (elim n [ inl x ↦ x | inr x ↦ λ y. x (ground arith) ])
                ∙ at))
    | inr q ↦ rw (unregister, s, q) at
  ]
]

drop_device-conns :
    (d e : Text) (h : Hub) → d ≢ e → lookup d (drop_device e h).conns ≡ lookup d h.conns
unfolding drop_device
drop_device-conns d e h n = elim (Option-cases (lookup e h.conns)) [
  | inl m ↦ rw (m, drop_device) refl
  | inr (g, s) ↦
      rw (s, drop_device)
        (ap (lookup d) (drain-conns g _ (record h { conns = erase e h.conns }))
          ∙ lookup-erase_other d e h.conns n)
]

send_frame-conns : (e : Text) (f : ServerToPhone) (h : Hub) → (send_frame e f h).conns ≡ h.conns
unfolding send_frame
send_frame-conns e f h = ground arith

resolve_ack-conns :
    (e k : Text) (r : Result Text (Unit {0})) (h : Hub) → (resolve_ack e k r h).conns ≡ h.conns
unfolding resolve_ack
resolve_ack-conns e k r h = ground arith

pub send-conns : (g : ℕ) (f : ServerToPhone) (h : Hub) → (send g f h).1.conns ≡ h.conns
unfolding send
send-conns g f h = ground arith

Undisturbed-lookup :
    {d : Text} {g : ℕ} {h h' : Hub}
    → Undisturbed d g h h'
    → lookup d h.conns ≡ some g
    → lookup d h'.conns ≡ some g
unfolding post_ack withdraw take_frame close
Undisturbed-lookup nothing at = at
Undisturbed-lookup {d} (registers {h' = v} e n u) at =
    ap (lookup d) (register-conns e v)
    ∙ (lookup-insert_other d e v.conn_gen v.conns n ∙ Undisturbed-lookup u at)
Undisturbed-lookup {d} {g} (unregisters {h' = v} e k n u) at =
    unregister-conns d e g k v n (Undisturbed-lookup u at)
Undisturbed-lookup {d} (drops {h' = v} e n u) at =
    drop_device-conns d e v n ∙ Undisturbed-lookup u at
Undisturbed-lookup {d} (frames {h' = v} e f u) at =
    ap (lookup d) (send_frame-conns e f v) ∙ Undisturbed-lookup u at
Undisturbed-lookup {d} (resolves {h' = v} e k r u) at =
    ap (lookup d) (resolve_ack-conns e k r v) ∙ Undisturbed-lookup u at
Undisturbed-lookup (numbers u) at = Undisturbed-lookup u at
Undisturbed-lookup (posts k c u) at = Undisturbed-lookup u at
Undisturbed-lookup (withdraws k c u) at = Undisturbed-lookup u at
Undisturbed-lookup {d} (sends {h' = v} k f u) at =
    ap (lookup d) (send-conns k f v) ∙ Undisturbed-lookup u at
Undisturbed-lookup (writes k u) at = Undisturbed-lookup u at
Undisturbed-lookup (closes k u) at = Undisturbed-lookup u at

pub register-generation : (d : Text) (h : Hub) → (register d h).0 ≡ h.conn_gen
unfolding register
register-generation d h = elim (Option-cases (lookup d h.conns)) [
  | inl n ↦ rw (n, register) refl
  | inr (g, s) ↦ rw (s, register) refl
]

unregister-current :
    (d : Text) (g : ℕ) (h : Hub)
    → lookup d h.conns ≡ some g
    → ((unregister d g h).0 ≡ true)
      × (lookup d (unregister d g h).1.conns ≡ none)
      × ((e : Text) → e ≢ d → lookup e (unregister d g h).1.conns ≡ lookup e h.conns)
unfolding unregister
unregister-current d g h at =
    let q : g == g ≡ true = ground arith in
    let gone : (v : Text)
        → lookup v
            (drain g (bytes "device disconnected") (record h { conns = erase d h.conns })).conns
          ≡ lookup v (erase d h.conns) =
      λ v.
        ap (lookup v)
          (drain-conns g (bytes "device disconnected") (record h { conns = erase d h.conns })) in
    rw (unregister, at, q)
      (refl, gone d ∙ lookup-erase d h.conns, λ e n. gone e ∙ lookup-erase_other e d h.conns n)

pub unregister-stale :
    (d : Text) (g k : ℕ) (h : Hub)
    → lookup d h.conns ≡ some g
    → k ≢ g
    → unregister d k h ≡ (false, h)
unfolding unregister
unregister-stale d g k h at n = let q : g == k ≡ false = ground arith in rw (unregister, at, q) refl

-- A registered connection stays the one of its device while other devices come and go, older
-- connections of it are torn down and commands and acks run: tearing down any other connection of
-- the device then changes nothing, and tearing down this one leaves the device without a connection
-- and the other devices with theirs.
pub register-unregister :
    (d : Text) (h : Hub) {h' : Hub}
    → Undisturbed d (register d h).0 (register d h).1 h'
    → ((k : ℕ) → k ≢ (register d h).0 → unregister d k h' ≡ (false, h'))
      × ((unregister d (register d h).0 h').0 ≡ true)
      × (lookup d (unregister d (register d h).0 h').1.conns ≡ none)
      × ((e : Text)
          → e ≢ d
          → lookup e (unregister d (register d h).0 h').1.conns ≡ lookup e h'.conns)
register-unregister d h {h'} u =
    let start : lookup d (register d h).1.conns ≡ some (register d h).0 =
      ap (lookup d) (register-conns d h)
      ∙ (lookup-insert d h.conn_gen h.conns ∙ ap (λ g. some g) (sym (register-generation d h))) in
    let at = Undisturbed-lookup u start in
    let (flag, gone, others) = unregister-current d _ h' at in
    (λ k n. unregister-stale d _ k h' at n, flag, gone, others)
