-- ===== src/Share/Config.antt =====
-- share/mod.rs: what a share exposes and where it listens. Reading a socket address is the standard
-- library's: its parser is an argument.
pub mod Ports
pub mod Resolved
mod Examples
use dial_f.Prelude.{
  ℕ, zero, suc, ◌+◌, ◌-◌, ◌||◌, Option, none, some, List, [], ◌∷◌, ◌++◌, if◌then◌else◌, ltb, ◌==◌,
  is_empty,
}
use dial_f.Prelude.Outcome.{Result, ok, err, ◌>>=◌, ◌>>◌, bail_if, ok_or}
use dial_f.Prelude.Text.{Text, bytes, trim, strip_prefix, contains, parse_unsigned, decimal}

pub data Upstream : Type 0 where
  tcp : Text → Upstream
  unix : Text → Upstream

pub data ConfigError : Type 0 where
  no_address no_port no_path bad_scheme bad_port zero_port backwards too_wide : ConfigError
  bad_profile bad_bind own_port zero_forward loopback_forward all_and_named none_named : ConfigError

-- Upstream as Display
unfoldable pub show_upstream : Upstream → Text
show_upstream (tcp addr) = bytes "tcp:" ++ addr
show_upstream (unix path) = bytes "unix:" ++ path

unfoldable pub parse_tcp : Text → Result ConfigError Upstream
unfolding contains
parse_tcp rest =
    if is_empty rest
    then err no_address
    else (if contains (bytes ":") rest then ok (tcp rest) else err no_port)

unfoldable pub parse_unix : Text → Result ConfigError Upstream
parse_unix rest = if is_empty rest then err no_path else ok (unix rest)

-- Upstream as FromStr
unfoldable pub parse_upstream : Text → Result ConfigError Upstream
unfolding trim strip_prefix parse_tcp parse_unix
parse_upstream s =
    let t = trim s in
    elim (strip_prefix (bytes "tcp:") t) [
      | some rest ↦ parse_tcp rest
      | none ↦ elim (strip_prefix (bytes "unix:") t) [
        | some rest ↦ parse_unix rest
        | none ↦ err bad_scheme
      ]
    ]

abbrev pub max_forward_span : ℕ
max_forward_span = 64

pub data PortSpec : Type 0 where
  port : ℕ → PortSpec
  range : Text → PortSpec

-- `split_once(['-', ':'])`
unfoldable pub split_range : Text → Option (Text × Text)
split_range [] = none
split_range (c ∷ s) =
    let rest = split_range s in
    if c == 45 || c == 58
    then some ([], s)
    else elim rest [ none ↦ none | some (a, b) ↦ some (c ∷ a, b) ]

-- `lo..=hi`, of `n` ports.
unfoldable pub ports_from : ℕ → ℕ → List ℕ
ports_from lo zero = []
ports_from lo (suc n) = lo ∷ ports_from (lo + 1) n

-- The tests on the two ends of a range.
unfoldable pub check_range : ℕ → ℕ → Result ConfigError (List ℕ)
unfolding ports_from
check_range lo hi = do
  bail_if (lo == 0 || hi == 0) zero_port
  bail_if (ltb hi lo) backwards
  bail_if (ltb max_forward_span (hi - lo + 1)) too_wide
  ok (ports_from lo (hi - lo + 1))

unfoldable pub parse_port_spec : Text → Result ConfigError (List ℕ)
unfolding trim split_range parse_unsigned check_range
parse_port_spec spec =
    let s = trim spec in
    let ends : Text × Text = elim (split_range s) [
      | some (a, b) ↦ (trim a, trim b)
      | none ↦ (s, s)
    ] in
    do
      lo ← ok_or (parse_unsigned 10 65536 ends.0) bad_port
      hi ← ok_or (parse_unsigned 10 65536 ends.1) bad_port
      check_range lo hi

-- PortSpec::expand
unfoldable pub expand : PortSpec → Result ConfigError (List ℕ)
unfolding parse_port_spec decimal
expand (port p) = parse_port_spec (decimal p)
expand (range s) = parse_port_spec s
