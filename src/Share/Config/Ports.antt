-- ===== src/Share/Config/Ports.antt =====
-- share/mod.rs: the ports and addresses that are read.
use dial_f.Prelude.{
  ℕ, zero, suc, ◌+◌, ◌-◌, ◌≤◌, ◌<◌, ◌≡◌, refl, sym, ap, ◌∙◌, Bool, true, false, ◌||◌, Option, none,
  some, List, ◌++◌, if◌then◌else◌, ltb, ◌==◌, length, is_empty, All, arith, Bool-cases, inl, inr,
}
use dial_f.Prelude.Outcome.{ok, err, ◌>>=◌, ok_or}
use dial_f.Prelude.Text.{
  Text, bytes, trim, strip_prefix, strip_prefix_iff, contains, parse_unsigned, parse_unsigned-lt,
  decimal,
}
use dial_f.Share.Config.{
  Upstream, tcp, unix, bad_port, no_address, no_port, no_path, bad_scheme, show_upstream, parse_tcp,
  parse_unix, parse_upstream, PortSpec, port, range, split_range, ports_from, check_range,
  parse_port_spec, expand, max_forward_span,
}

-- A port that can be bound.
abbrev pub IsPort : ℕ → Type 0
IsPort p = (0 < p) × (p < 65536)

-- Consecutive ports, at least one of them and at most 64.
abbrev pub IsSpan : List ℕ → Type 0
IsSpan ps =
    (lo : ℕ) × (n : ℕ) × (ps ≡ ports_from lo n)
    × All IsPort ps
    × (length ps ≡ n)
    × (0 < n)
    × (n ≤ 64)

length-ports_from : (lo n : ℕ) → length (ports_from lo n) ≡ n
unfolding ports_from
length-ports_from lo zero = refl
length-ports_from lo (suc n) = ap suc (length-ports_from (lo + 1) n)

ports_from-IsPort : (lo n : ℕ) → 0 < lo → lo + n ≤ 65536 → All IsPort (ports_from lo n)
unfolding ports_from
ports_from-IsPort lo zero p b = tt
ports_from-IsPort lo (suc n) p b =
    ((p, omega arith), ports_from-IsPort (lo + 1) n (omega arith) (omega arith))

ports_from-IsSpan : (lo n : ℕ) → 0 < lo → lo + n ≤ 65536 → 0 < n → n ≤ 64 → IsSpan (ports_from lo n)
ports_from-IsSpan lo n p b q r =
    (lo, n, refl, ports_from-IsPort lo n p b, length-ports_from lo n, q, r)

check_range-IsSpan : (lo hi : ℕ) (ps : List ℕ) → hi < 65536 → check_range lo hi ≡ ok ps → IsSpan ps
unfolding check_range
check_range-IsSpan lo hi ps b h = elim (Bool-cases (lo == 0 || hi == 0)) [
  | inl z ↦ ground (arith, z, h)
  | inr z ↦ elim (Bool-cases (ltb hi lo)) [
    | inl y ↦ ground (arith, y, z, h)
    | inr y ↦ elim (Bool-cases (ltb max_forward_span (hi - lo + 1))) [
      | inl w ↦ ground (arith, y, z, w, h)
      | inr w ↦
          let e : ports_from lo (hi - lo + 1) ≡ ps = ground (arith, z, y, w, h) in
          rw (sym e) (
            ports_from-IsSpan lo (hi - lo + 1) (ground (arith, z)) (ground (arith, y)) (omega arith)
              (ground (arith, w)))
    ]
  ]
]

parse_range-IsSpan :
    (lo hi : Option ℕ) (ps : List ℕ)
    → ((n : ℕ) → hi ≡ some n → n < 65536)
    → (do l ← ok_or lo bad_port; h ← ok_or hi bad_port; check_range l h) ≡ ok ps
    → IsSpan ps
parse_range-IsSpan none hi ps b h = cc
parse_range-IsSpan (some l) none ps b h = cc
parse_range-IsSpan (some l) (some r) ps b h = check_range-IsSpan l r ps (b r refl) h

-- Whatever a `--forward-port` value says, the ports that it is read as are consecutive, at least one
-- and at most 64 of them, and each can be bound: none is 0 or beyond 65535.
pub parse_port_spec-IsSpan : (s : Text) (ps : List ℕ) → parse_port_spec s ≡ ok ps → IsSpan ps
unfolding parse_port_spec
parse_port_spec-IsSpan s ps h =
    let ends : Text × Text = elim (split_range (trim s)) [
      | some (a, b) ↦ (trim a, trim b)
      | none ↦ (trim s, trim s)
    ] in
    parse_range-IsSpan (parse_unsigned 10 65536 ends.0) (parse_unsigned 10 65536 ends.1) ps
      (λ n e. parse_unsigned-lt 10 65536 ends.1 (omega arith) e) h

pub expand-IsSpan : (spec : PortSpec) (ps : List ℕ) → expand spec ≡ ok ps → IsSpan ps
unfolding expand
expand-IsSpan (port p) ps h = parse_port_spec-IsSpan (decimal p) ps h
expand-IsSpan (range s) ps h = parse_port_spec-IsSpan s ps h

tcp_if-show :
    (x y : Bool) (r : Text) (u : Upstream)
    → (if x then err no_address else (if y then ok (tcp r) else err no_port)) ≡ ok u
    → show_upstream u ≡ bytes "tcp:" ++ r
unfolding show_upstream
tcp_if-show true y r u h = cc
tcp_if-show false false r u h = cc
tcp_if-show false true r (tcp q) h = ground arith
tcp_if-show false true r (unix q) h = cc

unix_if-show :
    (x : Bool) (r : Text) (u : Upstream)
    → (if x then err no_path else ok (unix r)) ≡ ok u
    → show_upstream u ≡ bytes "unix:" ++ r
unfolding show_upstream
unix_if-show true r u h = cc
unix_if-show false r (tcp q) h = cc
unix_if-show false r (unix q) h = ground arith

unix_form-show :
    (t : Text) (r : Option Text) (u : Upstream)
    → strip_prefix (bytes "unix:") t ≡ r
    → (elim r [ some rest ↦ parse_unix rest | none ↦ err bad_scheme ]) ≡ ok u
    → show_upstream u ≡ t
unfolding parse_unix
unix_form-show t none u e h = cc
unix_form-show t (some r) u e h =
    unix_if-show (is_empty r) r u h ∙ sym ((strip_prefix_iff (bytes "unix:") t r).0 e)

tcp_form-show :
    (t : Text) (r : Option Text) (u : Upstream)
    → strip_prefix (bytes "tcp:") t ≡ r
    → (elim r [
      | some rest ↦ parse_tcp rest
      | none ↦ elim (strip_prefix (bytes "unix:") t) [
        | some rest ↦ parse_unix rest
        | none ↦ err bad_scheme
      ]
    ])
      ≡ ok u
    → show_upstream u ≡ t
unfolding parse_tcp
tcp_form-show t none u e h = unix_form-show t (strip_prefix (bytes "unix:") t) u refl h
tcp_form-show t (some r) u e h =
    tcp_if-show (is_empty r) (contains (bytes ":") r) r u h
    ∙ sym ((strip_prefix_iff (bytes "tcp:") t r).0 e)

-- An upstream address that is read prints as the text that it was read from, without the spaces
-- around it.
pub parse_upstream-show :
    (s : Text) (u : Upstream) → parse_upstream s ≡ ok u → show_upstream u ≡ trim s
unfolding parse_upstream
parse_upstream-show s u h = tcp_form-show (trim s) (strip_prefix (bytes "tcp:") (trim s)) u refl h
