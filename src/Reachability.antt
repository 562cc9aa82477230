-- ===== src/Reachability.antt =====
-- reachability.rs: what a firewall lets through to dialfd, and what to do about it.
pub mod Noted
pub mod Rules
pub mod Flags
pub mod Lines
pub mod Openings
pub mod Grouped
pub mod Findings
pub mod Hosts
pub mod Nftables
mod Examples
use dial_f.Prelude.{
  ℕ, Bool, true, false, not, ◌&&◌, ◌||◌, Option, none, some, List, [], ◌∷◌, ◌++◌, exists,
  if◌then◌else◌, leb, ◌==◌,
}
use dial_f.Prelude.Text.{Text, bytes, text_eq, trim, split_whitespace, strip_prefix, parse_unsigned}
use dial_f.Share.Adb.Devices.{lines}
use dial_f.Share.Config.{split_range}

pub record Finding : Type 0 where
  pub problem : Text
  pub fix : Text

-- Whether a firewall lets a port through.
pub data Open : Type 0 where
  yes no unknown : Open
  only_on : List Text → Open

-- `str::split` at a character: at least one part.
unfoldable pub split : ℕ → Text → List Text
split d [] = [] ∷ []
split d (c ∷ s) = elim (split d s) [
  | [] ↦ [] ∷ []
  | p ∷ ps ↦ if c == d then [] ∷ p ∷ ps else (c ∷ p) ∷ ps
]

-- `str::parse::<u16>`
abbrev pub parse_port : Text → Option ℕ
parse_port s = parse_unsigned 10 65536 s

unfoldable pub in_range : ℕ → Option ℕ → Option ℕ → Bool
in_range port (some lo) (some hi) = leb lo port && leb port hi
in_range port lo hi = false

unfoldable pub is_port : ℕ → Option ℕ → Bool
is_port port none = false
is_port port (some p) = p == port

unfoldable pub part_covers : ℕ → Text → Bool
unfolding split_range parse_unsigned in_range is_port
part_covers port part = elim (split_range part) [
  | some (lo, hi) ↦ in_range port (parse_port lo) (parse_port hi)
  | none ↦ is_port port (parse_port part)
]

unfoldable pub ports_cover : Text → ℕ → Bool
unfolding split trim part_covers
ports_cover spec port = exists (λ part. part_covers port (trim part)) (split 44 spec)

-- What stands behind a flag.
unfoldable pub arg : Text → List Text → Option Text
unfolding text_eq
arg flag [] = none
arg flag (w ∷ []) = none
arg flag (w ∷ v ∷ ws) = let rest = arg flag (v ∷ ws) in if text_eq w flag then some v else rest

unfoldable pub is_text : Text → Option Text → Bool
unfolding text_eq
is_text t none = false
is_text t (some s) = text_eq s t

unfoldable pub has_word : List Text → Text → Bool
unfolding text_eq
has_word ws flag = exists (λ w. text_eq w flag) ws

-- The flags of a rule that does not open a port to an arbitrary phone.
abbrev pub narrowing : List Text
narrowing =
    bytes "-s"
    ∷ bytes "-d"
    ∷ bytes "--ctstate"
    ∷ bytes "--state"
    ∷ bytes "--icmp-type"
    ∷ bytes "--sport"
    ∷ []

unfoldable pub rule_matches : Text → ℕ → Option Text → Option Text → Bool
unfolding is_text ports_cover
rule_matches proto port none none = true
rule_matches proto port (some p) none = is_text proto (some p)
rule_matches proto port none (some spec) = ports_cover spec port
rule_matches proto port (some p) (some spec) = is_text proto (some p) && ports_cover spec port

-- What a line of the rules does for the port.
pub data Verdict : Type 0 where
  silent opens : Verdict
  opens_on : Text → Verdict

-- The first word names the policy of the chain.
unfoldable pub is_policy : Text → List Text → Bool
unfolding strip_prefix is_text
is_policy chain [] = false
is_policy chain (w ∷ ws) = is_text chain (strip_prefix (bytes ":") w)

unfoldable pub second_is : Text → List Text → Bool
unfolding text_eq
second_is t (w ∷ v ∷ ws) = text_eq v t
second_is t ws = false

unfoldable pub on_interface : Option Text → Verdict
unfolding text_eq
on_interface none = opens
on_interface (some i) = if text_eq i (bytes "lo") then silent else opens_on i

-- `arg("--dport").or_else(|| arg("--dports"))`
unfoldable pub dports : List Text → Option Text
unfolding arg
dports ws = elim (arg (bytes "--dport") ws) [ some s ↦ some s | none ↦ arg (bytes "--dports") ws ]

unfoldable pub verdict : (chain target proto : Text) → ℕ → List Text → Verdict
unfolding is_policy second_is is_text arg has_word rule_matches dports on_interface
verdict chain target proto port ws =
    if is_policy chain ws
    then (if second_is (bytes "ACCEPT") ws then opens else silent)
    else if not (is_text chain (arg (bytes "-A") ws)) || not (is_text target (arg (bytes "-j") ws))
    then silent
    else if exists (has_word ws) narrowing
    then silent
    else if not (rule_matches proto port (arg (bytes "-p") ws) (dports ws))
    then silent
    else on_interface (arg (bytes "-i") ws)

unfoldable pub end_of_rules : List Text → Open
end_of_rules [] = no
end_of_rules (i ∷ is) = only_on (i ∷ is)

-- An interface that is not noted yet.
unfoldable pub note : Text → List Text → List Text
unfolding text_eq
note i noted = if exists (λ j. text_eq j i) noted then noted else noted ++ (i ∷ [])

unfoldable pub judge_all : List Text → List Verdict → Open
unfolding end_of_rules note
judge_all noted [] = end_of_rules noted
judge_all noted (silent ∷ vs) = judge_all noted vs
judge_all noted (opens ∷ vs) = yes
judge_all noted (opens_on i ∷ vs) = judge_all (note i noted) vs

unfoldable pub verdicts : (chain target proto : Text) → ℕ → List Text → List Verdict
unfolding verdict split_whitespace
verdicts chain target proto port [] = []
verdicts chain target proto port (l ∷ ls) =
    verdict chain target proto port (split_whitespace l) ∷ verdicts chain target proto port ls

unfoldable pub iptables_open : (rules chain target proto : Text) → ℕ → Open
unfolding judge_all verdicts lines
iptables_open rules chain target proto port =
    judge_all [] (verdicts chain target proto port (lines rules))

-- A fix, and every problem that it solves.
pub record Step : Type 0 where
  pub problems : List Text
  pub solution : Text

-- A finding goes to the step of its fix, which is a new one if there is none.
unfoldable pub place_finding : Finding → List Step → List Step
unfolding text_eq
place_finding f [] = record { problems = f.problem ∷ []; solution = f.fix } ∷ []
place_finding f (s ∷ ss) =
    let rest = place_finding f ss in
    if text_eq s.solution f.fix
    then record s { problems = s.problems ++ (f.problem ∷ []) } ∷ ss
    else s ∷ rest

unfoldable pub group_from : List Step → List Finding → List Step
unfolding place_finding
group_from steps [] = steps
group_from steps (f ∷ fs) = group_from (place_finding f steps) fs

unfoldable pub group_by_fix : List Finding → List Step
unfolding group_from
group_by_fix findings = group_from [] findings
