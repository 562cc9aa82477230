-- ===== src/Reachability/Rules.antt =====
-- reachability.rs: what a list of iptables rules says of a port.
use dial_f.Prelude.{ℕ, ◌≡◌, refl, sym, ap, ◌∙◌, Bool, true, false, ◌||◌, List, [], ◌∷◌, exists}
use dial_f.Prelude.Text.{Text, text_eq}
use dial_f.Share.Adb.Devices.{lines}
use dial_f.Reachability.{
  Open, yes, no, unknown, only_on, Verdict, silent, opens, opens_on, end_of_rules, note, judge_all,
  verdicts, iptables_open,
}
use dial_f.Reachability.Noted.{among, among-note, IsDistinct, note-IsDistinct}

abbrev pub opens_all : Verdict → Bool
opens_all opens = true
opens_all v = false

abbrev pub opens_for : Text → Verdict → Bool
opens_for i (opens_on j) = text_eq j i
opens_for i v = false

-- The answer for rules with these verdicts, when `noted` were opened before.
abbrev pub Reads : List Text → List Verdict → Open → Type 0
Reads noted vs yes = exists opens_all vs ≡ true
Reads noted vs no =
    (exists opens_all vs ≡ false)
    × ((i : Text) → (among i noted || exists (opens_for i) vs) ≡ false)
Reads noted vs (only_on is) =
    (exists opens_all vs ≡ false)
    × ((i : Text) → among i is ≡ (among i noted || exists (opens_for i) vs))
    × IsDistinct is
Reads noted vs unknown = ⊥

or_assoc : (a b c : Bool) → ((a || b) || c) ≡ (a || (b || c))
or_assoc true b c = refl
or_assoc false b c = refl

or-false : (b : Bool) → b ≡ (b || false)
or-false true = refl
or-false false = refl

end_of_rules-Reads : (noted : List Text) → IsDistinct noted → Reads noted [] (end_of_rules noted)
unfolding end_of_rules
end_of_rules-Reads [] d = (refl, λ i. refl)
end_of_rules-Reads (t ∷ ts) d = (refl, λ i. or-false (among i (t ∷ ts)), d)

Reads-silent :
    (noted : List Text) (vs : List Verdict) (o : Open)
    → Reads noted vs o
    → Reads noted (silent ∷ vs) o
Reads-silent noted vs yes h = h
Reads-silent noted vs no h = h
Reads-silent noted vs (only_on is) h = h
Reads-silent noted vs unknown h = h

Reads-opens_on :
    (j : Text) (noted : List Text) (vs : List Verdict) (o : Open)
    → Reads (note j noted) vs o
    → Reads noted (opens_on j ∷ vs) o
Reads-opens_on j noted vs yes h = h
Reads-opens_on j noted vs no h = (
  h.0,
  λ i.
      sym (or_assoc (among i noted) (text_eq j i) _)
      ∙ sym (ap (λ b. b || exists (opens_for i) vs) (among-note i j noted))
      ∙ h.1 i,
)
Reads-opens_on j noted vs (only_on is) h = (
  h.0,
  λ i.
      h.1 i
      ∙ ap (λ b. b || exists (opens_for i) vs) (among-note i j noted)
      ∙ or_assoc (among i noted) (text_eq j i) _,
  h.2,
)
Reads-opens_on j noted vs unknown h = h

judge_all-Reads :
    (noted : List Text) (vs : List Verdict) → IsDistinct noted → Reads noted vs (judge_all noted vs)
unfolding judge_all
judge_all-Reads noted [] d = end_of_rules-Reads noted d
judge_all-Reads noted (silent ∷ vs) d = Reads-silent noted vs _ (judge_all-Reads noted vs d)
judge_all-Reads noted (opens ∷ vs) d = refl
judge_all-Reads noted (opens_on i ∷ vs) d =
    Reads-opens_on i noted vs _ (judge_all-Reads (note i noted) vs (note-IsDistinct i noted d))

-- The answer for a list of rules is the one that fits the verdicts on its lines.
pub iptables_open-Reads :
    (rules chain target proto : Text) (port : ℕ)
    → Reads []
        (verdicts chain target proto port (lines rules))
        (iptables_open rules chain target proto port)
unfolding iptables_open
iptables_open-Reads rules chain target proto port =
    judge_all-Reads [] (verdicts chain target proto port (lines rules)) tt
