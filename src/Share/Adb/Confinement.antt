-- ===== src/Share/Adb/Confinement.antt =====
-- share/adb.rs: what a peer can reach through the gate.
use dial_f.Prelude.{
  ◌≡◌, refl, ap, ◌∙◌, ◌≢◌, ◌⊎◌, inl, inr, true, false, ◌||◌, none, some, ◌++◌, All, arith,
}
use mathlib.Core.List.{append_assoc}
use dial_f.Prelude.Text.{Text, bytes, text_eq_iff, strip_prefix, strip_prefix_iff, starts_with}
use dial_f.Share.Adb.{
  Targets, all, only, allows, trim_nul, blocked, named_serial, matching_serial, upstream_request,
}
use dial_f.Share.Adb.Serials.{
  strip_prefix-trim_nul, starts_with-trim_nul, list_unnamed, prefixed_unnamed,
  named_serial-trim_nul, trim_nul-extends, matching_serial-prefix, only_one-allows, named_tport,
  named_transport, named_host_serial, host_serial_tport, host_serial_transport, host_serial_bytes,
  allowed_either,
}
use dial_f.Share.Adb.Route.{
  listed, addressed, prefixed, plain, selected, scoped, Route-upstream_request, not_blocked,
}

-- The request has none of the spellings that are blocked whatever is shared.
pub record IsHarmless (q : Text) : Type 0 where
  pub no_kill : trim_nul q ≢ bytes "host:kill"
  pub no_connect : starts_with (bytes "host:connect:") q ≡ false
  pub no_disconnect : starts_with (bytes "host:disconnect") q ≡ false

-- By `host:transport:`, `host:tport:serial:` and `host-serial:` the request names only what is shared.
pub record IsConfined (t : Targets) (q : Text) : Type 0 where
  pub transport :
      (s : Text) → named_serial q ≡ some s → (allows t s || allows t (trim_nul s)) ≡ true
  pub host_serial :
      (rest : Text)
      → strip_prefix (bytes "host-serial:") q ≡ some rest
      → (t ≡ all) ⊎ ((s cmd : Text) × (allows t s ≡ true) × (rest ≡ s ++ (bytes ":" ++ cmd)))

connect_bytes : All (λ c. c ≢ 0) (bytes "host:connect:")
unfolding bytes
connect_bytes = omega arith

disconnect_bytes : All (λ c. c ≢ 0) (bytes "host:disconnect")
unfolding bytes
disconnect_bytes = omega arith

kill_prefix :
    (p q x : Text)
    → All (λ c. c ≢ 0) p
    → strip_prefix p q ≡ some x
    → strip_prefix p (bytes "host:kill") ≡ none
    → trim_nul q ≢ bytes "host:kill"
kill_prefix p q x h e n k = cc (strip_prefix-trim_nul p q x h e, ap (strip_prefix p) k)

not_blocked-IsHarmless : (q : Text) → blocked (trim_nul q) ≡ none → IsHarmless q
unfolding blocked
not_blocked-IsHarmless q h = record {
  no_kill = λ e. ground (arith, text_eq_iff (trim_nul q) (bytes "host:kill"));
  no_connect = ground (arith, starts_with-trim_nul (bytes "host:connect:") q connect_bytes);
  no_disconnect = ground (arith, starts_with-trim_nul (bytes "host:disconnect") q disconnect_bytes);
}

tport-IsHarmless : (s : Text) → IsHarmless (bytes "host:tport:serial:" ++ s)
unfolding bytes strip_prefix starts_with
tport-IsHarmless s = record {
  no_kill = kill_prefix (bytes "host:tport:serial:") _ s (omega arith) refl refl;
  no_connect = refl;
  no_disconnect = refl;
}

transport-IsHarmless : (s : Text) → IsHarmless (bytes "host:transport:" ++ s)
unfolding bytes strip_prefix starts_with
transport-IsHarmless s = record {
  no_kill = kill_prefix (bytes "host:transport:") _ s (omega arith) refl refl;
  no_connect = refl;
  no_disconnect = refl;
}

host_serial-IsHarmless : (s : Text) → IsHarmless (bytes "host-serial:" ++ s)
unfolding bytes strip_prefix starts_with
host_serial-IsHarmless s = record {
  no_kill = kill_prefix (bytes "host-serial:") _ s (omega arith) refl refl;
  no_connect = refl;
  no_disconnect = refl;
}

-- Whatever is shared, no request that reaches the adb server, as the peer sent it or as the policy
-- rewrote it, is `host:kill` (NUL bytes behind it left away), begins with `host:connect:`, or begins
-- with `host:disconnect`.
pub upstream_request-IsHarmless :
    (request : Text) (t : Targets) {q : Text} → upstream_request request t ≡ some q → IsHarmless q
upstream_request-IsHarmless request t {q} h = elim (Route-upstream_request request t q h) [
  | listed e _ ↦ same e
  | addressed e _ _ _ ↦ same e
  | prefixed e _ _ _ _ _ ↦ same e
  | plain e _ _ ↦ same e
  | selected s _ (inl e) ↦ rw e (tport-IsHarmless s)
  | selected s _ (inr e) ↦ rw e (transport-IsHarmless s)
  | scoped s r _ e ↦ rw e (host_serial-IsHarmless _)
]
  where
    same : q ≡ request → IsHarmless q
    same e = rw e (not_blocked-IsHarmless request (not_blocked request t q h))

module _ (request : Text) (t : Targets) {q : Text} (h : upstream_request request t ≡ some q) where
  confined_transport :
      (s : Text) → named_serial q ≡ some s → (allows t s || allows t (trim_nul s)) ≡ true
  confined_transport s n = elim (Route-upstream_request request t q h) [
    | listed e l ↦ cc (named_serial-trim_nul q s n, ap trim_nul e, (list_unnamed _ l).0)
    | addressed e x m a ↦
        allowed_either t s x a (inr (cc (named_serial-trim_nul q s n, ap trim_nul e, m)))
    | prefixed e m _ _ _ _ ↦ cc (named_serial-trim_nul q s n, ap trim_nul e, m)
    | plain e m _ ↦ cc (named_serial-trim_nul q s n, ap trim_nul e, m)
    | selected x o (inl e) ↦ allowed_either t s x (only_one-allows t o) (inl (cc (named_tport x)))
    | selected x o (inr e) ↦
        allowed_either t s x (only_one-allows t o) (inl (cc (named_transport x)))
    | scoped x rest o e ↦ cc (named_host_serial (x ++ (bytes ":" ++ rest)))
  ]

  -- The part after `host-serial:` begins with a shared serial and a colon, also where NULs follow.
  extended :
      (u : Targets) (rest : Text) {x : Text}
      → t ≡ u
      → matching_serial (trim_nul rest) u ≡ some x
      → (t ≡ all) ⊎ ((s cmd : Text) × (allows t s ≡ true) × (rest ≡ s ++ (bytes ":" ++ cmd)))
  extended all rest e m = inl e
  extended (only list) rest {x} e m =
      let (a, cmd, f) = matching_serial-prefix (trim_nul rest) list m in
      let (z, g) = trim_nul-extends rest in
      inr (
        x,
        cmd ++ z,
        rw e a,
        g
            ∙ rw f (
                append_assoc x (bytes ":" ++ cmd) z
                ∙ ap (λ r. x ++ r) (append_assoc (bytes ":") cmd z)),
      )

  confined_host_serial :
      (rest : Text)
      → strip_prefix (bytes "host-serial:") q ≡ some rest
      → (t ≡ all) ⊎ ((s cmd : Text) × (allows t s ≡ true) × (rest ≡ s ++ (bytes ":" ++ cmd)))
  confined_host_serial rest p = elim (Route-upstream_request request t q h) [
    | listed e l ↦ cc (trimmed, ap trim_nul e, (list_unnamed _ l).1)
    | addressed e x m a ↦ cc (prefixed_unnamed _ _ trimmed, ap trim_nul e, m)
    | prefixed e m r x f k ↦ extended t rest refl (rw (← (same r f e)) at k)
    | plain e m f ↦ cc (trimmed, ap trim_nul e, f)
    | selected x o (inl e) ↦ cc (host_serial_tport x)
    | selected x o (inr e) ↦ cc (host_serial_transport x)
    | scoped x r o e ↦
        inr (x, r, only_one-allows t o, cc ((strip_prefix_iff (bytes "host-serial:") q _).1 e))
  ]
    where
      trimmed : strip_prefix (bytes "host-serial:") (trim_nul q) ≡ some (trim_nul rest)
      trimmed = strip_prefix-trim_nul (bytes "host-serial:") q rest host_serial_bytes p

      same :
          (r : Text)
          → strip_prefix (bytes "host-serial:") (trim_nul request) ≡ some r
          → q ≡ request
          → trim_nul rest ≡ r
      same r f e = cc (trimmed, ap trim_nul e)

  -- Every request that reaches the adb server names a device only if that device is shared: by
  -- `host:transport:` or `host:tport:serial:` a serial that is on the list (the NUL bytes behind
  -- it left away), by `host-serial:` one that is on the list and is followed by a colon, unless
  -- all devices are shared.
  pub upstream_request-IsConfined : IsConfined t q
  upstream_request-IsConfined = record {
    transport = confined_transport;
    host_serial = confined_host_serial;
  }
