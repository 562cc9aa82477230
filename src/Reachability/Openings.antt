-- ===== src/Reachability/Openings.antt =====
-- reachability.rs: which iptables rules open a port, and for whom.
use dial_f.Prelude.{
  ℕ, ◌≡◌, ◌↔◌, refl, sym, ap, ◌∙◌, Bool, true, false, ◌||◌, List, [], ◌∷◌, exists, exists-true,
  exists_of_member, Memᴰ,
}
use dial_f.Prelude.Text.{Text, split_whitespace}
use dial_f.Share.Adb.Devices.{lines}
use dial_f.Reachability.{Open, yes, no, unknown, only_on, Verdict, verdict, verdicts, iptables_open}
use dial_f.Reachability.Noted.{among, IsDistinct}
use dial_f.Reachability.Rules.{opens_all, opens_for, Reads, iptables_open-Reads}
use dial_f.Reachability.Flags.{differ}
use dial_f.Reachability.Lines.{OpensAll, OpensOn, verdict-OpensAll, verdict-OpensOn}

module _ (chain target proto : Text) (port : ℕ) where
  -- An answer about the port, by what the lines of the rules do for it.
  abbrev pub Answers : List Text → Open → Type 0
  Answers ls yes = (l : Text) × Memᴰ l ls × OpensAll chain target proto port (split_whitespace l)
  Answers ls no =
      ((l : Text) → Memᴰ l ls → ¬ OpensAll chain target proto port (split_whitespace l))
      × ((i l : Text) → Memᴰ l ls → ¬ OpensOn chain target proto port i (split_whitespace l))
  Answers ls (only_on is) =
      ((l : Text) → Memᴰ l ls → ¬ OpensAll chain target proto port (split_whitespace l))
      × ((i : Text)
          → (among i is ≡ true)
            ↔ ((l : Text) × Memᴰ l ls × OpensOn chain target proto port i (split_whitespace l)))
      × IsDistinct is
  Answers ls unknown = ⊥

  exists-verdicts :
      (p : Verdict → Bool) (ls : List Text)
      → exists p (verdicts chain target proto port ls)
        ≡ exists (λ l. p (verdict chain target proto port (split_whitespace l))) ls
  unfolding verdicts
  exists-verdicts p [] = refl
  exists-verdicts p (l ∷ ls) =
      ap (λ b. p (verdict chain target proto port (split_whitespace l)) || b) (exists-verdicts p ls)

  -- Whether a line passes a test of its verdict.
  some-line :
      (p : Verdict → Bool) (ls : List Text)
      → exists p (verdicts chain target proto port ls) ≡ true
      → (l : Text) × Memᴰ l ls × (p (verdict chain target proto port (split_whitespace l)) ≡ true)
  some-line p ls h = exists-true _ ls (sym (exists-verdicts p ls) ∙ h)

  line-some :
      (p : Verdict → Bool) (ls : List Text) {l : Text}
      → Memᴰ l ls
      → p (verdict chain target proto port (split_whitespace l)) ≡ true
      → exists p (verdicts chain target proto port ls) ≡ true
  line-some p ls m h =
      exists-verdicts p ls
      ∙ exists_of_member (λ l. p (verdict chain target proto port (split_whitespace l))) ls m h

  no-OpensAll :
      (ls : List Text) (l : Text)
      → exists opens_all (verdicts chain target proto port ls) ≡ false
      → Memᴰ l ls
      → ¬ OpensAll chain target proto port (split_whitespace l)
  no-OpensAll ls l h m o = differ (
      sym h
      ∙ line-some opens_all ls m
          ((verdict-OpensAll chain target proto port (split_whitespace l)).1 o))

  OpensOn-some :
      (i l : Text) (ls : List Text)
      → Memᴰ l ls
      → OpensOn chain target proto port i (split_whitespace l)
      → exists (opens_for i) (verdicts chain target proto port ls) ≡ true
  OpensOn-some i l ls m o =
      line-some (opens_for i) ls m
        ((verdict-OpensOn chain target proto port i (split_whitespace l)).1 o)

  some-OpensOn :
      (i : Text) (ls : List Text)
      → exists (opens_for i) (verdicts chain target proto port ls) ≡ true
      → (l : Text) × Memᴰ l ls × OpensOn chain target proto port i (split_whitespace l)
  some-OpensOn i ls h =
      let (l, m, e) = some-line (opens_for i) ls h in
      (l, m, (verdict-OpensOn chain target proto port i (split_whitespace l)).0 e)

  Reads-Answers :
      (ls : List Text) (o : Open) → Reads [] (verdicts chain target proto port ls) o → Answers ls o
  Reads-Answers ls yes h =
      let (l, m, e) = some-line opens_all ls h in
      (l, m, (verdict-OpensAll chain target proto port (split_whitespace l)).0 e)
  Reads-Answers ls no (all, on) =
      (λ l m. no-OpensAll ls l all m, λ i l m o. differ (sym (on i) ∙ OpensOn-some i l ls m o))
  Reads-Answers ls (only_on is) (all, on, distinct) = (
    λ l m. no-OpensAll ls l all m,
    λ i. (λ h. some-OpensOn i ls (sym (on i) ∙ h), λ o. on i ∙ OpensOn-some i o.0 ls o.1 o.2),
    distinct,
  )
  Reads-Answers ls unknown h = h

-- What a list of iptables rules says of a port. It is open when the policy of the chain accepts or a
-- rule for the port opens it with no interface, and only then. Otherwise it is open exactly on the
-- interfaces but the loopback that some rule for the port names, each given once, and with no such rule
-- it is closed. A rule for the port is not the policy line of the chain, is appended to the chain,
-- jumps to the target, has none of the flags `-s`, `-d`, `--ctstate`, `--state`, `--icmp-type` and
-- `--sport`, and gives no protocol or the one asked for, and no ports or ports that cover the one
-- asked for.
pub iptables_open-Answers :
    (rules chain target proto : Text) (port : ℕ)
    → Answers chain target proto port (lines rules) (iptables_open rules chain target proto port)
iptables_open-Answers rules chain target proto port =
    Reads-Answers chain target proto port (lines rules)
      (iptables_open rules chain target proto port)
      (iptables_open-Reads rules chain target proto port)
