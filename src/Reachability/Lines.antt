-- ===== src/Reachability/Lines.antt =====
-- reachability.rs: what one line of iptables rules does for a port.
use dial_f.Prelude.{
  ℕ, ◌≡◌, ◌≢◌, ◌⊎◌, ◌↔◌, refl, sym, ap, ◌∙◌, Bool, true, false, none, some, List, ◌∷◌, ◌++◌, exists,
  Bool-cases, inl, inr,
}
use dial_f.Prelude.Text.{Text, bytes}
use dial_f.Reachability.{
  Verdict, silent, opens, arg, is_text, has_word, narrowing, rule_matches, ports_cover, is_policy,
  second_is, on_interface, dports, verdict,
}
use dial_f.Reachability.Rules.{opens_all, opens_for}
use dial_f.Reachability.Flags.{
  is_text_iff, is_policy_iff, tested, six, rule_matches_iff, second_is_iff, on_interface_iff,
  differ,
}

module _ (chain target proto : Text) (port : ℕ) where
  -- The words of a rule for the port that any phone's packets meet: it is in the chain and jumps to the
  -- target, no flag narrows it to some packets, and its protocol and its ports, where it names them,
  -- are those asked for.
  pub record IsRule (ws : List Text) : Type 0 where
    pub no_policy : (rest : List Text) → ws ≢ (bytes ":" ++ chain) ∷ rest
    pub chained : arg (bytes "-A") ws ≡ some chain
    pub jumps : arg (bytes "-j") ws ≡ some target
    pub any_source : has_word ws (bytes "-s") ≡ false
    pub any_destination : has_word ws (bytes "-d") ≡ false
    pub any_ctstate : has_word ws (bytes "--ctstate") ≡ false
    pub any_state : has_word ws (bytes "--state") ≡ false
    pub any_icmp_type : has_word ws (bytes "--icmp-type") ≡ false
    pub any_source_port : has_word ws (bytes "--sport") ≡ false
    pub protocol : (arg (bytes "-p") ws ≡ none) ⊎ (arg (bytes "-p") ws ≡ some proto)
    pub ports :
        (dports ws ≡ none)
        ⊎ ((spec : Text) × (dports ws ≡ some spec) × (ports_cover spec port ≡ true))

  -- A line that opens the port for everyone: the chain accepts by its policy, or a rule with no
  -- interface.
  abbrev pub OpensAll : List Text → Type 0
  OpensAll ws =
      ((rest : List Text) × (ws ≡ (bytes ":" ++ chain) ∷ bytes "ACCEPT" ∷ rest))
      ⊎ (IsRule ws × (arg (bytes "-i") ws ≡ none))

  -- A line that opens it on an interface, which is not the loopback.
  abbrev pub OpensOn : Text → List Text → Type 0
  OpensOn i ws = IsRule ws × (arg (bytes "-i") ws ≡ some i) × (i ≢ bytes "lo")

  accepted :
      (ws : List Text)
      → is_policy chain ws ≡ true
      → second_is (bytes "ACCEPT") ws ≡ true
      → (rest : List Text) × (ws ≡ (bytes ":" ++ chain) ∷ bytes "ACCEPT" ∷ rest)
  accepted ws h k =
      let (rest, e) = (is_policy_iff chain ws).0 h in
      let (rest', e') =
        (second_is_iff (bytes "ACCEPT") (bytes ":" ++ chain) rest).0
          (sym (ap (second_is (bytes "ACCEPT")) e) ∙ k) in
      (rest', e ∙ ap (λ r. (bytes ":" ++ chain) ∷ r) e')

  -- The tests of a line that is no policy of the chain.
  passed-IsRule :
      (ws : List Text)
      → is_policy chain ws ≡ false
      → is_text chain (arg (bytes "-A") ws) ≡ true
      → is_text target (arg (bytes "-j") ws) ≡ true
      → exists (has_word ws) narrowing ≡ false
      → rule_matches proto port (arg (bytes "-p") ws) (dports ws) ≡ true
      → IsRule ws
  passed-IsRule ws a b c d e =
      let (s, dest, ctstate, state, icmp, sport) = six _ _ _ _ _ _ d in
      let (protocol, ports) = (rule_matches_iff proto port (arg (bytes "-p") ws) (dports ws)).0 e in
      record {
        no_policy = λ rest q. differ (sym a ∙ (is_policy_iff chain ws).1 (rest, q));
        chained = (is_text_iff chain (arg (bytes "-A") ws)).0 b;
        jumps = (is_text_iff target (arg (bytes "-j") ws)).0 c;
        any_source = s;
        any_destination = dest;
        any_ctstate = ctstate;
        any_state = state;
        any_icmp_type = icmp;
        any_source_port = sport;
        protocol = protocol;
        ports = ports;
      }

  verdict-tested :
      (ws : List Text) (p : Verdict → Bool)
      → p silent ≡ false
      → p (verdict chain target proto port ws) ≡ true
      → ((p opens ≡ true)
          × ((rest : List Text) × (ws ≡ (bytes ":" ++ chain) ∷ bytes "ACCEPT" ∷ rest)))
        ⊎ (IsRule ws × (p (on_interface (arg (bytes "-i") ws)) ≡ true))
  unfolding verdict
  verdict-tested ws p s h =
      elim (tested (is_policy chain ws) (second_is (bytes "ACCEPT") ws)
        (is_text chain (arg (bytes "-A") ws)) (is_text target (arg (bytes "-j") ws))
        (exists (has_word ws) narrowing) (rule_matches proto port (arg (bytes "-p") ws) (dports ws))
        (on_interface (arg (bytes "-i") ws)) p s h) [
          | inl (a, b, o) ↦ inl (o, accepted ws a b)
          | inr (a, b, c, d, e, o) ↦ inr (passed-IsRule ws a b c d e, o)
        ]

  not_policy : (ws : List Text) → IsRule ws → is_policy chain ws ≡ false
  not_policy ws r = elim (Bool-cases (is_policy chain ws)) [
    | inl e ↦ let q = (is_policy_iff chain ws).0 e in absurd (r.no_policy q.0 q.1)
    | inr e ↦ e
  ]

  IsRule-verdict :
      (ws : List Text)
      → IsRule ws
      → verdict chain target proto port ws ≡ on_interface (arg (bytes "-i") ws)
  unfolding verdict
  IsRule-verdict ws r =
      let matches =
        (rule_matches_iff proto port (arg (bytes "-p") ws) (dports ws)).1 (r.protocol, r.ports) in
      rw
        (
          verdict,
          not_policy ws r,
          (is_text_iff chain (arg (bytes "-A") ws)).1 r.chained,
          (is_text_iff target (arg (bytes "-j") ws)).1 r.jumps,
          r.any_source,
          r.any_destination,
          r.any_ctstate,
          r.any_state,
          r.any_icmp_type,
          r.any_source_port,
          matches,
        )
        refl

  policy-verdict :
      (ws rest : List Text)
      → ws ≡ (bytes ":" ++ chain) ∷ bytes "ACCEPT" ∷ rest
      → verdict chain target proto port ws ≡ opens
  unfolding verdict
  policy-verdict ws rest e =
      let first : List Text = (bytes ":" ++ chain) ∷ bytes "ACCEPT" ∷ rest in
      ap (verdict chain target proto port) e
      ∙ rw
          (
            verdict,
            (is_policy_iff chain first).1 (bytes "ACCEPT" ∷ rest, refl),
            (second_is_iff (bytes "ACCEPT") (bytes ":" ++ chain) (bytes "ACCEPT" ∷ rest)).1
                (rest, refl),
          )
          refl

  pub verdict-OpensAll :
      (ws : List Text) → (opens_all (verdict chain target proto port ws) ≡ true) ↔ OpensAll ws
  verdict-OpensAll ws = (there, back)
    where
      there : opens_all (verdict chain target proto port ws) ≡ true → OpensAll ws
      there h = elim (verdict-tested ws opens_all refl h) [
        | inl (o, e) ↦ inl e
        | inr (r, o) ↦ inr (r, (on_interface_iff (arg (bytes "-i") ws)).0.0 o)
      ]

      back : OpensAll ws → opens_all (verdict chain target proto port ws) ≡ true
      back (inl (rest, e)) = ap opens_all (policy-verdict ws rest e)
      back (inr (r, e)) =
          ap opens_all (IsRule-verdict ws r) ∙ (on_interface_iff (arg (bytes "-i") ws)).0.1 e

  pub verdict-OpensOn :
      (i : Text) (ws : List Text)
      → (opens_for i (verdict chain target proto port ws) ≡ true) ↔ OpensOn i ws
  verdict-OpensOn i ws = (there, back)
    where
      there : opens_for i (verdict chain target proto port ws) ≡ true → OpensOn i ws
      there h = elim (verdict-tested ws (opens_for i) refl h) [
        | inl (o, e) ↦ cc
        | inr (r, o) ↦
            let (at, other) = ((on_interface_iff (arg (bytes "-i") ws)).1 i).0 o in (r, at, other)
      ]

      back : OpensOn i ws → opens_for i (verdict chain target proto port ws) ≡ true
      back (r, at, other) =
          ap (opens_for i) (IsRule-verdict ws r)
          ∙ ((on_interface_iff (arg (bytes "-i") ws)).1 i).1 (at, other)
