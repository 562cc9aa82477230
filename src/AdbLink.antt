-- ===== src/AdbLink.antt =====
-- adb_link.rs: keeping the phones that report wireless debugging connected in the host's adb server.
-- Times are in milliseconds.
pub mod Checks
pub mod Retry
pub mod Driving
mod Examples
use dial_f.Prelude.{
  ℕ, ◌+◌, ◌*◌, min, Bool, true, false, not, ◌&&◌, ◌||◌, Option, none, some, List, [], ◌∷◌, ◌++◌,
  if◌then◌else◌, leb, is_empty,
}
use dial_f.Prelude.Text.{
  Text, bytes, text_eq, strip_prefix, contains, trim, to_ascii_lowercase, decimal,
}

pub data AdbState : Type 0 where
  off available connecting connected needs_pairing : AdbState
  blocked_local_network adb_not_found failing : AdbState

pub record AdbStatus : Type 0 where
  pub endpoint : Option Text
  pub serial : Option Text
  pub state : AdbState
  pub detail : Option Text

-- AdbStatus::new
abbrev pub new_status : Option Text → AdbState → Option Text → AdbStatus
new_status endpoint state detail = record {
  endpoint = endpoint;
  serial = none;
  state = state;
  detail = detail;
}

-- AdbStatus::connected
abbrev pub connected_status : Text → Text → AdbStatus
connected_status endpoint serial = record (new_status (some endpoint) connected none) {
  serial = some serial;
}

unfoldable pub serials : Text → Option Text → List Text
serials endpoint none = endpoint ∷ []
serials endpoint (some []) = endpoint ∷ []
serials endpoint (some name) = endpoint ∷ (name ++ bytes "._adb-tls-connect._tcp") ∷ []

unfoldable pub endpoint_of : Text → ℕ → Text
unfolding contains
endpoint_of ip port =
    if contains (bytes ":") ip
    then bytes "[" ++ (ip ++ (bytes "]:" ++ decimal port))
    else ip ++ (bytes ":" ++ decimal port)

-- A failure to connect with no reason behind the address.
unfoldable pub bare_failure : Text → Bool
unfolding strip_prefix contains
bare_failure lower = elim (strip_prefix (bytes "failed to connect to ") lower) [
  | none ↦ false
  | some rest ↦ not (contains (bytes " ") rest) && not (contains (bytes "'") rest)
]

abbrev pub pairing_hint : Text
pairing_hint =
    bytes
      "this host is not paired with the phone — pair once with `adb pair <ip>:<pairing port>`, using the code from Wireless debugging → Pair device with pairing code"

abbrev pub local_network_hint : Text
local_network_hint =
    bytes
      "macOS Local Network permission is missing for the adb server. Allow it in System Settings → Privacy & Security → Local Network, and start the adb server (or dialfd) from a plain Terminal window or as a service — under tmux macOS never grants it"

unfoldable pub classify_connect : Text → Bool → AdbState × Option Text
unfolding bare_failure contains trim to_ascii_lowercase
classify_connect output macos =
    let out = trim output in
    let lower = to_ascii_lowercase out in
    if contains (bytes "connected to") lower
    then (connected, none)
    else (if contains (bytes "failed to authenticate") lower
          || (contains (bytes "unauthorized") lower || bare_failure lower)
        then (needs_pairing, some pairing_hint)
        else (if macos && contains (bytes "no route to host") lower
            then (blocked_local_network, some local_network_hint)
            else (
              failing,
              some (if is_empty out then bytes "adb connect printed nothing" else out),
            )))

abbrev pub first_retry : ℕ
first_retry = 30000

abbrev pub max_retry : ℕ
max_retry = 300000

pub record Backoff : Type 0 where
  pub delay : ℕ
  pub not_before : Option ℕ

-- Backoff::default
abbrev pub fresh : Backoff
fresh = record { delay = first_retry; not_before = none }

unfoldable pub ready : ℕ → Backoff → Bool
ready now b = elim b.not_before [ none ↦ true | some t ↦ leb t now ]

unfoldable pub failed : ℕ → Backoff → Backoff
failed now b = record { delay = min (b.delay * 2) max_retry; not_before = some (now + b.delay) }

pub record Link : Type 0 where
  pub endpoint : Option Text
  pub backoff : Backoff
  pub busy : Bool

abbrev pub new_link : Link
new_link = record { endpoint = none; backoff = fresh; busy = false }

abbrev pub same_endpoint : Option Text → Text → Bool
same_endpoint o ep = elim o [ none ↦ false | some e ↦ text_eq e ep ]

-- on_report, as far as the link goes: nothing while a check runs; else the endpoint that a new one
-- replaces, whether `adb connect` may run, and the link while the check runs.
unfoldable pub begin_check : Text → ℕ → Link → Option (Option Text × Bool × Link)
unfolding ready text_eq
begin_check ep now link =
    if link.busy
    then none
    else (if same_endpoint link.endpoint ep
        then some (none, ready now link.backoff, record link { busy = true })
        else some
            (link.endpoint, true, record { endpoint = some ep; backoff = fresh; busy = true }))

-- What the spawned check does to the link when it ends with a status, or with none.
unfoldable pub end_check : Option AdbState → ℕ → Link → Link
unfolding failed
end_check none now link = record link { busy = false }
end_check (some connected) now link = record link { busy = false; backoff = fresh }
end_check (some available) now link = record link { busy = false; backoff = fresh }
end_check (some _) now link = record link { busy = false; backoff = failed now link.backoff }
