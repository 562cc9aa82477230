-- ===== src/Reachability/Nftables.antt =====
-- reachability.rs: what the text of an nftables configuration lets through.
use dial_f.Prelude.{
  ℕ, Bool, false, not, ◌&&◌, ◌||◌, Option, none, some, [], ◌∷◌, ◌++◌, exists, is_empty, reverse,
  if◌then◌else◌, ◌==◌,
}
use dial_f.Prelude.Text.{Text, bytes, text_eq, trim, strip_prefix, starts_with, contains, is_some}
use dial_f.Share.Adb.Devices.{lines}
use dial_f.Share.Client.{split_once}
use dial_f.Reachability.{Open, yes, no, split, parse_port, in_range, is_port}
use dial_f.Reachability.Findings.{mdns_port}

-- What stands behind the first place where a text stands, and what before it.
unfoldable pub after_first : Text → Text → Option Text
unfolding strip_prefix
after_first t [] = strip_prefix t []
after_first t (c ∷ s) =
    let later = after_first t s in
    elim (strip_prefix t (c ∷ s)) [ some rest ↦ some rest | none ↦ later ]

unfoldable pub before_first : Text → Text → Text
unfolding strip_prefix
before_first t [] = []
before_first t (c ∷ s) =
    let later = before_first t s in if is_some (strip_prefix t (c ∷ s)) then [] else c ∷ later

unfoldable pub without_comment : Text → Text
unfolding before_first
without_comment line = before_first (bytes "#") line

unfoldable pub named : Text → Option ℕ
unfolding text_eq
named w = if text_eq w (bytes "mdns") then some mdns_port else parse_port w

-- The braces of a set are blanks, and a comma is one as good as a blank.
unfoldable pub blank_out : Text → Text
blank_out [] = []
blank_out (c ∷ s) = (if (c == 123) || ((c == 125) || (c == 44)) then 32 else c) ∷ blank_out s

unfoldable pub word_covers : ℕ → Text → Bool
unfolding split_once named in_range is_port
word_covers port w = elim (split_once 45 w) [
  | some (lo, hi) ↦ in_range port (named lo) (named hi)
  | none ↦ is_port port (named w)
]

unfoldable pub spec_covers : ℕ → Text → Bool
unfolding split blank_out word_covers
spec_covers port spec =
    exists (λ w. not (is_empty w) && word_covers port w) (split 32 (blank_out spec))

-- `split_once("{proto} dport")`, or else `split_once("th dport")`
unfoldable pub ports_of : (proto line : Text) → Option Text
unfolding after_first
ports_of proto line = elim (after_first (proto ++ bytes " dport") line) [
  | some rest ↦ some rest
  | none ↦ after_first (bytes "th dport") line
]

unfoldable pub is_hit : ℕ → Option Text → Bool
unfolding before_first spec_covers
is_hit port none = false
is_hit port (some rest) = spec_covers port (before_first (bytes "accept") rest)

unfoldable pub line_opens : (proto : Text) → ℕ → Text → Bool
unfolding without_comment contains is_hit ports_of
line_opens proto port line =
    let l = without_comment line in contains (bytes "accept") l && is_hit port (ports_of proto l)

unfoldable pub drops : Text → Bool
unfolding text_eq starts_with contains
drops l =
    text_eq l (bytes "drop")
    || (text_eq l (bytes "reject")
        || (starts_with (reverse (bytes " drop")) (reverse l) || contains (bytes " reject") l))

unfoldable pub is_restrictive : Text → Bool
unfolding contains drops without_comment trim lines
is_restrictive conf =
    contains (bytes "policy drop") conf
    || exists (λ l. drops (trim (without_comment l))) (lines conf)

unfoldable pub nft_open : (conf proto : Text) → ℕ → Open
unfolding lines line_opens is_restrictive
nft_open conf proto port =
    if exists (line_opens proto port) (lines conf)
    then yes
    else if is_restrictive conf
    then no
    else yes
