-- ===== src/Share/Config/Resolved/Safe.antt =====
-- share/mod.rs: what a share may run from.
use dial_f.Prelude.{
  ℕ, ◌≤◌, ◌<◌, ◌≡◌, refl, sym, ap, ◌∙◌, Bool, true, false, not, ◌&&◌, ◌||◌, Option, none, some,
  List, [], ◌∷◌, ◌++◌, map, keep, if◌then◌else◌, leb, ◌==◌, is_empty, exists, All, All-append,
  arith, Bool-cases, inl, inr,
}
use dial_f.Prelude.Outcome.{ok, ◌>>◌, bail_if, ok_or, ok-injective, passed}
use dial_f.Prelude.Text.{Text, trim}
use dial_f.Share.Adb.{Targets, all, only}
use dial_f.Share.Config.{bad_bind, PortSpec, expand, own_port, zero_forward, loopback_forward}
use dial_f.Share.Config.Ports.{IsPort, expand-IsSpan}
use dial_f.Share.Config.Resolved.{
  Profile, require_auth, SockAddr, ShareConfig, ResolvedShare, choose_targets, resolve_targets,
  insert, sort, dedup, expand_all, check_ports, resolve, bind_text, upstream_of,
}

-- Each port is below the next one.
abbrev pub IsAscending : List ℕ → Type 0
IsAscending [] = Unit {0}
IsAscending (p ∷ []) = Unit {0}
IsAscending (p ∷ q ∷ ps) = (p < q) × IsAscending (q ∷ ps)

abbrev IsOrdered : List ℕ → Type 0
IsOrdered [] = Unit {0}
IsOrdered (p ∷ []) = Unit {0}
IsOrdered (p ∷ q ∷ ps) = (p ≤ q) × IsOrdered (q ∷ ps)

insert-All : (p : ℕ) (ps : List ℕ) → IsPort p → All IsPort ps → All IsPort (insert p ps)
unfolding insert
insert-All p [] h a = (h, tt)
insert-All p (q ∷ qs) h a = elim (Bool-cases (leb p q)) [
  | inl e ↦ rw e (h, a)
  | inr e ↦ rw e (a.0, insert-All p qs h a.1)
]

sort-All : (ps : List ℕ) → All IsPort ps → All IsPort (sort ps)
unfolding sort
sort-All [] a = tt
sort-All (p ∷ ps) a = insert-All p (sort ps) a.0 (sort-All ps a.1)

dedup-All : (ps : List ℕ) → All IsPort ps → All IsPort (dedup ps)
unfolding dedup
dedup-All [] a = tt
dedup-All (p ∷ []) a = a
dedup-All (p ∷ q ∷ ps) a = elim (Bool-cases (p == q)) [
  | inl e ↦ rw e (dedup-All (q ∷ ps) a.1)
  | inr e ↦ rw e (a.0, dedup-All (q ∷ ps) a.1)
]

insert-below : (q p : ℕ) (ps : List ℕ) → q ≤ p → IsOrdered (q ∷ ps) → IsOrdered (q ∷ insert p ps)
unfolding insert
insert-below q p [] h o = (h, tt)
insert-below q p (r ∷ ps) h o = elim (Bool-cases (leb p r)) [
  | inl e ↦ rw e (h, (ground (arith, e), o.1))
  | inr e ↦ rw e (o.0, insert-below r p ps (ground (arith, e)) o.1)
]

insert-IsOrdered : (p : ℕ) (ps : List ℕ) → IsOrdered ps → IsOrdered (insert p ps)
unfolding insert
insert-IsOrdered p [] o = tt
insert-IsOrdered p (q ∷ ps) o = elim (Bool-cases (leb p q)) [
  | inl e ↦ rw e (ground (arith, e), o)
  | inr e ↦ rw e (insert-below q p ps (ground (arith, e)) o)
]

sort-IsOrdered : (ps : List ℕ) → IsOrdered (sort ps)
unfolding sort
sort-IsOrdered [] = tt
sort-IsOrdered (p ∷ ps) = insert-IsOrdered p (sort ps) (sort-IsOrdered ps)

dedup-head : (p : ℕ) (ps : List ℕ) → (qs : List ℕ) × (dedup (p ∷ ps) ≡ p ∷ qs)
unfolding dedup
dedup-head p [] = ([], refl)
dedup-head p (q ∷ ps) = elim (Bool-cases (p == q)) [
  | inl e ↦ let t = dedup-head q ps in (t.0, rw e (t.1 ∙ ap (λ x. x ∷ t.0) (ground (arith, e))))
  | inr e ↦ (dedup (q ∷ ps), rw e refl)
]

ascend : (p q : ℕ) (ps qs : List ℕ) → ps ≡ q ∷ qs → p < q → IsAscending ps → IsAscending (p ∷ ps)
ascend p q [] qs e h a = cc
ascend p q (r ∷ ps) qs e h a = (ground arith, a)

dedup-IsAscending : (ps : List ℕ) → IsOrdered ps → IsAscending (dedup ps)
unfolding dedup
dedup-IsAscending [] o = tt
dedup-IsAscending (p ∷ []) o = tt
dedup-IsAscending (p ∷ q ∷ ps) o = elim (Bool-cases (p == q)) [
  | inl e ↦ rw e (dedup-IsAscending (q ∷ ps) o.1)
  | inr e ↦
      let t = dedup-head q ps in
      rw e (
        ascend p q (dedup (q ∷ ps)) t.0 t.1 (ground (arith, e, o.0))
          (dedup-IsAscending (q ∷ ps) o.1))
]

expand_all-All : (specs : List PortSpec) (ps : List ℕ) → expand_all specs ≡ ok ps → All IsPort ps
unfolding expand_all
expand_all-All [] ps h = rw (sym (ok-injective [] ps h)) tt
expand_all-All (spec ∷ specs) ps h =
    let a = passed (expand spec) _ ps h in
    let b = passed (expand_all specs) _ ps a.2 in
    rw (sym (ok-injective (a.0 ++ b.0) ps b.2))
      (All-append IsPort a.0 b.0 (expand-IsSpan spec a.0 a.1).3 (expand_all-All specs b.0 b.1))

tests-ok :
    (own z : Bool) (loopback : Bool) (ps qs : List ℕ)
    → (do
      bail_if own own_port
      bail_if z zero_forward
      bail_if (not (is_empty ps) && loopback) loopback_forward
      ok ps)
      ≡ ok qs
    → (own ≡ false) × (ps ≡ qs) × (is_empty ps || not loopback ≡ true)
tests-ok true z b ps qs h = cc
tests-ok false true b ps qs h = cc
tests-ok false false b [] qs h = (refl, ok-injective [] qs h, refl)
tests-ok false false true (p ∷ ps) qs h = cc
tests-ok false false false (p ∷ ps) qs h = (refl, ok-injective (p ∷ ps) qs h, refl)

choose_targets-ok :
    (every : Bool) (named : List Text) (t : Targets)
    → choose_targets every named ≡ ok t
    → (t ≡ (if every then all else only named)) × (every || not (is_empty named) ≡ true)
unfolding choose_targets
choose_targets-ok true [] t h = (sym (ok-injective all t h), refl)
choose_targets-ok true (n ∷ ns) t h = cc
choose_targets-ok false [] t h = cc
choose_targets-ok false (n ∷ ns) t h = (sym (ok-injective (only (n ∷ ns)) t h), refl)

abbrev pub named_targets : ShareConfig → List Text
named_targets config = keep (λ s. not (is_empty s)) (map trim config.targets)

-- What holds of a share that may listen.
abbrev pub IsSafe : ShareConfig → Bool → ResolvedShare → Type 0
IsSafe config with_token share =
    (All IsPort share.ports × IsAscending share.ports)
    × (exists (λ p. p == share.bound.sock_port) share.ports ≡ false)
    × (is_empty share.ports || not share.bound.is_loopback ≡ true)
    × (share.exposed ≡ (if config.all_devices then all else only (named_targets config)))
    × (config.all_devices || not (is_empty (named_targets config)) ≡ true)
    × (require_auth share ≡ with_token)

require_auth-token :
    (with_token : Bool) (t : Text)
    → elim (if with_token then some t else none) [ none ↦ false | some x ↦ true ] ≡ with_token
require_auth-token true t = refl
require_auth-token false t = refl

module _ (parse_addr : Text → Option SockAddr) (new_token : Text) where
  -- Settings that resolve to a share: its forwarded ports are ascending, can be bound, do not include
  -- the port of the share itself, and there are none when it listens on a loopback address; it exposes
  -- every device exactly when the settings say so, and else the named devices, at least one; and it
  -- asks for a token exactly when one was asked for.
  pub resolve-IsSafe :
      (config : ShareConfig) (profile : Profile) (with_token : Bool) (share : ResolvedShare)
      → resolve parse_addr new_token config profile with_token ≡ ok share
      → IsSafe config with_token share
  unfolding resolve resolve_targets check_ports
  resolve-IsSafe config profile with_token share h =
      let addr = passed (ok_or (parse_addr (bind_text config profile)) bad_bind) _ share h in
      let source = passed (upstream_of config profile) _ share addr.2 in
      let exposed = passed (resolve_targets config) _ share source.2 in
      let ps = passed (expand_all config.forward_ports) _ share exposed.2 in
      let ports = passed (check_ports addr.0 (dedup (sort ps.0))) _ share ps.2 in
      let t = tests-ok _ _ addr.0.is_loopback (dedup (sort ps.0)) ports.0 ports.1 in
      let c = choose_targets-ok config.all_devices (named_targets config) exposed.0 exposed.1 in
      let a =
        dedup-All (sort ps.0) (sort-All ps.0 (expand_all-All config.forward_ports ps.0 ps.1)) in
      let o = dedup-IsAscending (sort ps.0) (sort-IsOrdered ps.0) in
      rw (sym (ok-injective _ share ports.2))
        (rw (sym t.1) ((a, o), t.0, t.2, c.0, c.1, require_auth-token with_token new_token))
