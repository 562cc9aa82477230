-- ===== src/Share/Config/Resolved.antt =====
-- share/mod.rs: the settings of a share and what they resolve to. The parser of socket addresses and
-- the new token are arguments.
pub mod Safe
use dial_f.Prelude.{
  ℕ, zero, suc, ◌+◌, Bool, true, false, not, ◌&&◌, ◌||◌, Option, none, some, List, [], ◌∷◌, ◌++◌,
  map, keep, if◌then◌else◌, leb, ◌==◌, is_empty, exists,
}
use dial_f.Prelude.Outcome.{Result, ok, err, ◌>>=◌, ◌>>◌, bail_if, ok_or}
use dial_f.Prelude.Text.{Text, bytes, text_eq, trim, to_ascii_lowercase, decimal}
use dial_f.Share.Adb.{Targets, all, only}
use dial_f.Share.Config.{
  Upstream, tcp, ConfigError, bad_bind, own_port, zero_forward, loopback_forward, all_and_named,
  none_named, bad_profile, parse_upstream, PortSpec, expand,
}

-- i64, without its bounds: n, and -1 - n.
pub data ℤ : Type 0 where
  pos : ℕ → ℤ
  negsuc : ℕ → ℤ

unfoldable pub positive : ℤ → Option ℕ
positive (pos zero) = none
positive (pos (suc n)) = some (suc n)
positive (negsuc n) = none

pub data Profile : Type 0 where
  adb : Profile

unfoldable pub default_upstream : Profile → Upstream
default_upstream adb = tcp (bytes "127.0.0.1:5037")

abbrev pub default_port : Profile → ℕ
default_port adb = 5939

abbrev pub default_client_port : Profile → ℕ
default_client_port adb = 5038

unfoldable pub show_profile : Profile → Text
show_profile adb = bytes "adb"

unfoldable pub parse_profile : Text → Result ConfigError Profile
unfolding trim to_ascii_lowercase text_eq
parse_profile s =
    let t = to_ascii_lowercase (trim s) in
    if text_eq t (bytes "adb") || text_eq t (bytes "android") then ok adb else err bad_profile

-- A socket address, as far as the settings look at it.
pub record SockAddr : Type 0 where
  pub is_loopback : Bool
  pub sock_port : ℕ

pub record ShareConfig : Type 0 where
  pub enabled : Bool
  pub bind : Option Text
  pub upstream : Option Text
  pub targets : List Text
  pub all_devices : Bool
  pub expire_after : ℤ
  pub forward_ports : List PortSpec
  pub autoconnect : Bool
  pub adb_binary : Option Text

abbrev pub default_expire_after : ℕ
default_expire_after = 3600

abbrev pub default_config : ShareConfig
default_config = record {
  enabled = false;
  bind = none;
  upstream = none;
  targets = [];
  all_devices = false;
  expire_after = pos default_expire_after;
  forward_ports = [];
  autoconnect = false;
  adb_binary = none;
}

pub record ResolvedShare : Type 0 where
  pub profile : Profile
  pub bound : SockAddr
  pub source : Upstream
  pub exposed : Targets
  pub token : Option Text
  pub expires_after : Option ℕ
  pub ports : List ℕ

abbrev pub is_public : ResolvedShare → Bool
is_public share = not (share.bound.is_loopback)

abbrev pub require_auth : ResolvedShare → Bool
require_auth share = elim (share.token) [ none ↦ false | some t ↦ true ]

-- The test on `all` and on whether any device is named.
unfoldable pub choose_targets : Bool → List Text → Result ConfigError Targets
choose_targets true [] = ok all
choose_targets true (t ∷ ts) = err all_and_named
choose_targets false [] = err none_named
choose_targets false (t ∷ ts) = ok (only (t ∷ ts))

unfoldable pub resolve_targets : ShareConfig → Result ConfigError Targets
unfolding choose_targets trim
resolve_targets config =
    choose_targets (config.all_devices) (keep (λ s. not (is_empty s)) (map trim (config.targets)))

unfoldable pub insert : ℕ → List ℕ → List ℕ
insert p [] = p ∷ []
insert p (q ∷ qs) = let rest = insert p qs in if leb p q then p ∷ q ∷ qs else q ∷ rest

unfoldable pub sort : List ℕ → List ℕ
unfolding insert
sort [] = []
sort (p ∷ ps) = insert p (sort ps)

-- Drops every port that equals the next one.
unfoldable pub dedup : List ℕ → List ℕ
dedup [] = []
dedup (p ∷ []) = p ∷ []
dedup (p ∷ q ∷ ps) = let rest = dedup (q ∷ ps) in if p == q then rest else p ∷ rest

unfoldable pub expand_all : List PortSpec → Result ConfigError (List ℕ)
unfolding expand
expand_all [] = ok []
expand_all (spec ∷ specs) = do ps ← expand spec; rest ← expand_all specs; ok (ps ++ rest)

-- The tests on the forwarded ports.
unfoldable pub check_ports : SockAddr → List ℕ → Result ConfigError (List ℕ)
check_ports addr ps = do
  bail_if (exists (λ p. p == addr.sock_port) ps) own_port
  bail_if (exists (λ p. p == 0) ps) zero_forward
  bail_if (not (is_empty ps) && addr.is_loopback) loopback_forward
  ok ps

unfoldable pub bind_text : ShareConfig → Profile → Text
unfolding decimal
bind_text config profile = elim (config.bind) [
  | some s ↦ s
  | none ↦ bytes "0.0.0.0:" ++ decimal (default_port profile)
]

unfoldable pub upstream_of : ShareConfig → Profile → Result ConfigError Upstream
unfolding parse_upstream default_upstream
upstream_of config profile = elim (config.upstream) [
  | some s ↦ parse_upstream s
  | none ↦ ok (default_upstream profile)
]

module _ (parse_addr : Text → Option SockAddr) (new_token : Text) where
  -- ShareConfig::resolve
  unfoldable pub resolve : ShareConfig → Profile → Bool → Result ConfigError ResolvedShare
  unfolding positive bind_text upstream_of resolve_targets expand_all sort dedup check_ports
  resolve config profile with_token = do
    addr ← ok_or (parse_addr (bind_text config profile)) bad_bind
    source ← upstream_of config profile
    exposed ← resolve_targets config
    ps ← expand_all (config.forward_ports)
    ports ← check_ports addr (dedup (sort ps))
    ok (record {
      profile = profile;
      bound = addr;
      source = source;
      exposed = exposed;
      token = if with_token then some new_token else none;
      expires_after = positive (config.expire_after);
      ports = ports;
    })
