-- ===== src/Share/Adb.antt =====
-- share/adb.rs, the policy: which requests of a peer reach the adb server, and in what form.
mod Serials
mod Route
pub mod Devices
pub mod Wire
pub mod Confinement
pub mod Numbered
mod Examples
use dial_f.Prelude.{
  Bool, true, false, not, ◌&&◌, ◌||◌, Option, none, some, List, [], ◌∷◌, ◌++◌, exists, find,
  is_empty, ◌==◌, if◌then◌else◌,
}
use dial_f.Prelude.Text.{Text, bytes, text_eq, strip_prefix, starts_with}

-- Which devices a share exposes.
pub data Targets : Type 0 where
  all : Targets
  only : List Text → Targets

unfoldable pub allows : Targets → Text → Bool
allows all serial = true
allows (only list) serial = exists (λ s. text_eq s serial) list

-- The single device to resolve an unqualified request to.
unfoldable pub only_one : Targets → Option Text
only_one (only (serial ∷ [])) = some serial
only_one _ = none

join : Text → List Text → Text
join sep [] = []
join sep (x ∷ []) = x
join sep (x ∷ y ∷ r) = x ++ (sep ++ join sep (y ∷ r))

pub describe : Targets → Text
unfolding join
describe all = bytes "all attached devices"
describe (only list) = join (bytes ", ") list

pub data Decision : Type 0 where
  forward : Decision
  rewrite : Text → Decision
  filter_list : Bool → Decision
  reject : Text → Decision

-- str::trim_end_matches('\0')
unfoldable pub trim_nul : Text → Text
trim_nul [] = []
trim_nul (c ∷ s) = let rest = trim_nul s in if c == 0 && is_empty rest then [] else c ∷ rest

one_of : List Text → Text → Bool
one_of names s = exists (λ n. text_eq n s) names

-- Whether `host:<cmd>` asks about the server rather than a device.
is_server_scoped : Text → Bool
unfolding one_of
is_server_scoped cmd =
    one_of
      (bytes "version"
        ∷ bytes "kill"
        ∷ bytes "devices"
        ∷ bytes "devices-l"
        ∷ bytes "track-devices"
        ∷ bytes "track-devices-l"
        ∷ bytes "host-features"
        ∷ bytes "server-status"
        ∷ bytes "reconnect"
        ∷ bytes "reconnect-offline"
        ∷ [])
      cmd
    || starts_with (bytes "emulator:") cmd
    || starts_with (bytes "connect:") cmd
    || starts_with (bytes "disconnect") cmd
    || starts_with (bytes "transport") cmd
    || starts_with (bytes "tport") cmd

not_shared : Text → Targets → Text
not_shared serial targets =
    bytes "device `"
    ++ (serial
        ++ (bytes "` is not shared by this host (sharing: " ++ (describe targets ++ bytes ")")))

-- Whether `rest` is `<s>:<command>`.
pub addresses : Text → Text → Bool
addresses rest s = elim (strip_prefix s rest) [ none ↦ false | some r ↦ starts_with (bytes ":") r ]

-- The shared serial that `rest` (`<serial>:<command>`) addresses, if any.
pub matching_serial : Text → Targets → Option Text
unfolding addresses
matching_serial rest all = some []
matching_serial rest (only list) = find (addresses rest) list

-- The serial of `host:transport:<serial>` or `host:tport:serial:<serial>`.
pub named_serial : Text → Option Text
named_serial req = elim (strip_prefix (bytes "host:transport:") req) [
  | some s ↦ some s
  | none ↦ strip_prefix (bytes "host:tport:serial:") req
]

is_unqualified : Text → Bool
unfolding one_of
is_unqualified = one_of (
    bytes "host:transport-any"
    ∷ bytes "host:transport-usb"
    ∷ bytes "host:transport-local"
    ∷ bytes "host:tport:any"
    ∷ bytes "host:tport:usb"
    ∷ bytes "host:tport:local"
    ∷ [])

-- A device selection that names no device.
decide_unqualified : Text → Targets → Decision
decide_unqualified req all = forward
decide_unqualified req (only list) = elim (only_one (only list)) [
  | some serial ↦
      if starts_with (bytes "host:tport:") req
      then rewrite (bytes "host:tport:serial:" ++ serial)
      else rewrite (bytes "host:transport:" ++ serial)
  | none ↦ reject (
      bytes "several devices are shared ("
      ++ (describe (only list) ++ bytes ") — pick one with `adb -s <serial>`"))
]

-- A bare `host:<cmd>` that needs a device is scoped to the shared one.
decide_bare : Text → Targets → Decision
decide_bare req targets = elim (strip_prefix (bytes "host:") req) [
  | none ↦ forward
  | some rest ↦ if is_server_scoped rest then forward else elim (only_one targets) [
    | none ↦ forward
    | some serial ↦ rewrite (bytes "host-serial:" ++ (serial ++ (bytes ":" ++ rest)))
  ]
]

pub blocked : Text → Option Text
blocked req =
    if text_eq req (bytes "host:kill")
    then some
        (bytes "host:kill is blocked by dialf device sharing (it would stop the host's adb server)")
    else if starts_with (bytes "host:connect:") req || starts_with (bytes "host:disconnect") req
    then some (bytes "attaching/detaching devices on the host is blocked by dialf device sharing")
    else none

pub is_list : Text → Bool
unfolding one_of
is_list = one_of (bytes "host:devices" ∷ bytes "host:devices-l" ∷ [])

pub is_track : Text → Bool
unfolding one_of
is_track = one_of (bytes "host:track-devices" ∷ bytes "host:track-devices-l" ∷ [])

decide_addressed : Text → Targets → Decision
decide_addressed req targets = elim (named_serial req) [
  | some serial ↦ if allows targets serial then forward else reject (not_shared serial targets)
  | none ↦ elim (strip_prefix (bytes "host-serial:") req) [
    | some rest ↦ elim (matching_serial rest targets) [
      | some s ↦ forward
      | none ↦ reject (
          bytes "`"
          ++ (rest
              ++ (bytes "` is not a shared device (sharing: " ++ (describe targets ++ bytes ")"))))
    ]
    | none ↦ if is_unqualified req then decide_unqualified req targets else decide_bare req targets
  ]
]

decide_trimmed : Text → Targets → Decision
unfolding decide_addressed
decide_trimmed req targets = elim (blocked req) [
  | some reason ↦ reject reason
  | none ↦
      if is_list req
      then filter_list false
      else if is_track req
      then filter_list true
      else decide_addressed req targets
]

-- A connection's fate, from its first request.
pub decide : Text → Targets → Decision
unfolding decide_trimmed
decide request targets = decide_trimmed (trim_nul request) targets

-- What `gate` writes to the adb server for a decision on `request`.
unfoldable pub sent : Text → Decision → Option Text
sent request (reject reason) = none
sent request (rewrite replacement) = some replacement
sent request _ = some request

pub upstream_request : Text → Targets → Option Text
unfolding sent
upstream_request request targets = sent request (decide request targets)
