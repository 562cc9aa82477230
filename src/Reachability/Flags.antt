-- ===== src/Reachability/Flags.antt =====
-- reachability.rs: what the tests of an iptables rule say.
use dial_f.Prelude.{
  ℕ, ◌≡◌, ◌≢◌, ◌⊎◌, ◌↔◌, refl, sym, ap, ◌∙◌, Bool, true, false, not, ◌&&◌, ◌||◌, Option, none, some,
  List, [], ◌∷◌, ◌++◌, Bool-cases, inl, inr, if◌then◌else◌, arith,
}
use dial_f.Prelude.Text.{Text, bytes, text_eq, text_eq_iff, strip_prefix, strip_prefix_iff}
use dial_f.Reachability.{
  Verdict, silent, opens, is_text, rule_matches, ports_cover, is_policy, second_is, on_interface,
}
use dial_f.Reachability.Rules.{opens_all, opens_for}

pub is_text_iff : (t : Text) (o : Option Text) → (is_text t o ≡ true) ↔ (o ≡ some t)
unfolding is_text
is_text_iff t none = (λ h. cc, λ h. cc)
is_text_iff t (some s) = (
  λ h. ap (λ x. some x) ((text_eq_iff s t).0 h),
  λ h. let q : s ≡ t = ground arith in (text_eq_iff s t).1 q,
)

pub is_policy_iff :
    (chain : Text) (ws : List Text)
    → (is_policy chain ws ≡ true) ↔ ((rest : List Text) × (ws ≡ (bytes ":" ++ chain) ∷ rest))
unfolding is_policy
is_policy_iff chain [] = (λ h. cc, λ h. let e = h.1 in cc)
is_policy_iff chain (w ∷ ws) = (
  λ h. (ws, ap (λ v. v ∷ ws) (colon h)),
  λ h.
      let e : w ≡ bytes ":" ++ chain = ground (arith, h.1) in
      (is_text_iff chain (strip_prefix (bytes ":") w)).1
        ((strip_prefix_iff (bytes ":") w chain).1 e),
)
  where
    colon : is_text chain (strip_prefix (bytes ":") w) ≡ true → w ≡ bytes ":" ++ chain
    colon h =
        (strip_prefix_iff (bytes ":") w chain).0
          ((is_text_iff chain (strip_prefix (bytes ":") w)).0 h)

-- Which way the tests of a line lead, when something but silence comes of it.
pub tested :
    (b1 b2 b3 b4 b5 b6 : Bool) (v : Verdict) (p : Verdict → Bool)
    → p silent ≡ false
    → p (
        if b1
        then (if b2 then opens else silent)
        else if not b3 || not b4
        then silent
        else if b5
        then silent
        else if not b6
        then silent
        else v)
      ≡ true
    → ((b1 ≡ true) × (b2 ≡ true) × (p opens ≡ true))
      ⊎ ((b1 ≡ false) × (b3 ≡ true) × (b4 ≡ true) × (b5 ≡ false) × (b6 ≡ true) × (p v ≡ true))
tested true true b3 b4 b5 b6 v p s h = inl (refl, refl, h)
tested true false b3 b4 b5 b6 v p s h = cc
tested false b2 false b4 b5 b6 v p s h = cc
tested false b2 true false b5 b6 v p s h = cc
tested false b2 true true true b6 v p s h = cc
tested false b2 true true false false v p s h = cc
tested false b2 true true false true v p s h = inr (refl, refl, refl, refl, refl, h)

pub six :
    (a b c d e f : Bool)
    → (a || (b || (c || (d || (e || (f || false)))))) ≡ false
    → (a ≡ false) × (b ≡ false) × (c ≡ false) × (d ≡ false) × (e ≡ false) × (f ≡ false)
six false false false false false false h = (refl, refl, refl, refl, refl, refl)
six true b c d e f h = cc
six false true c d e f h = cc
six false false true d e f h = cc
six false false false true e f h = cc
six false false false false true f h = cc
six false false false false false true h = cc

both : (a b : Bool) → (a && b) ≡ true → (a ≡ true) × (b ≡ true)
both true b h = (refl, h)
both false b h = cc

covers :
    (proto : Text) (port : ℕ) (s : Text)
    → (some s ≡ none) ⊎ ((x : Text) × (some s ≡ some x) × (ports_cover x port ≡ true))
    → ports_cover s port ≡ true
covers proto port s (inl e) = cc
covers proto port s (inr (x, e, h)) =
    let q : s ≡ x = ground arith in ap (λ y. ports_cover y port) q ∙ h

pub rule_matches_iff :
    (proto : Text) (port : ℕ) (p spec : Option Text)
    → (rule_matches proto port p spec ≡ true) ↔ (
        ((p ≡ none) ⊎ (p ≡ some proto))
        × ((spec ≡ none) ⊎ ((s : Text) × (spec ≡ some s) × (ports_cover s port ≡ true))))
unfolding rule_matches
rule_matches_iff proto port none none = (λ h. (inl refl, inl refl), λ h. refl)
rule_matches_iff proto port (some p) none = (
  λ h. (inr ((is_text_iff proto (some p)).0 h), inl refl),
  λ h. elim h.0 [ inl e ↦ cc | inr e ↦ (is_text_iff proto (some p)).1 e ],
)
rule_matches_iff proto port none (some s) =
    (λ h. (inl refl, inr (s, refl, h)), λ h. covers proto port s h.1)
rule_matches_iff proto port (some p) (some s) = (
  λ h.
      let (same, fits) = both (text_eq p proto) (ports_cover s port) h in
      (inr ((is_text_iff proto (some p)).0 same), inr (s, refl, fits)),
  λ h. elim h.0 [
    | inl e ↦ cc
    | inr e ↦ rw ((is_text_iff proto (some p)).1 e) (covers proto port s h.1)
  ],
)

pub second_is_iff :
    (t w : Text) (ws : List Text)
    → (second_is t (w ∷ ws) ≡ true) ↔ ((rest : List Text) × (ws ≡ t ∷ rest))
unfolding second_is
second_is_iff t w [] = (λ h. cc, λ h. let e = h.1 in cc)
second_is_iff t w (v ∷ ws) = (
  λ h. (ws, ap (λ x. x ∷ ws) ((text_eq_iff v t).0 h)),
  λ h. let e : v ≡ t = ground (arith, h.1) in (text_eq_iff v t).1 e,
)

pub differ : ¬ (false ≡ true)
differ h = cc

pub on_interface_iff :
    (o : Option Text)
    → ((opens_all (on_interface o) ≡ true) ↔ (o ≡ none))
      × ((i : Text) → (opens_for i (on_interface o) ≡ true) ↔ ((o ≡ some i) × (i ≢ bytes "lo")))
unfolding on_interface
on_interface_iff none = ((λ h. refl, λ h. refl), λ i. (λ h. cc, λ h. let e = h.0 in cc))
on_interface_iff (some s) = elim (Bool-cases (text_eq s (bytes "lo"))) [
  | inl e ↦
      let lo : s ≡ bytes "lo" = (text_eq_iff s (bytes "lo")).0 e in
      rw e (
        (λ h. cc, λ h. cc),
        λ i. (λ h. cc, λ h. absurd (h.1 (let q : s ≡ i = ground (arith, h.0) in sym q ∙ lo))),
      )
  | inr e ↦ rw e (
    (λ h. cc, λ h. cc),
    λ i. (
      λ h.
          let q : s ≡ i = (text_eq_iff s i).0 h in
          (ap (λ x. some x) q, λ k. differ (sym e ∙ (text_eq_iff s (bytes "lo")).1 (q ∙ k))),
      λ h. let q : s ≡ i = ground (arith, h.0) in (text_eq_iff s i).1 q,
    ),
  )
]
