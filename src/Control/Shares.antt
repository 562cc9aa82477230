-- ===== src/Control/Shares.antt =====
-- daemon.rs: starting, stopping and reporting the device share.
pub mod Bound
pub mod Exposed
use dial_f.Prelude.{
  ℕ, zero, suc, ◌+◌, ◌-◌, ◌*◌, ◌/◌, Bool, true, false, not, ◌&&◌, Option, none, some, List, [], ◌∷◌,
  map, keep, exists, is_empty, if◌then◌else◌, ltb,
}
use dial_f.Prelude.Outcome as Outcome
use dial_f.Prelude.Outcome.{Result, ok, err, bail_if, ok_or}
use dial_f.Prelude.Text.{Text, text_eq, is_some}
use dial_f.Share.Adb.{Targets, all, only}
use dial_f.Share.Adb.Devices.{Device}
use dial_f.Share.Config.{ConfigError, Upstream, port}
use dial_f.Share.Config.Resolved as Resolved
use dial_f.Share.Config.Resolved.{
  Profile, adb, ShareConfig, ResolvedShare, SockAddr, ℤ, resolve, upstream_of,
}
use dial_f.Share.Listener.{ShareHandle}
use dial_f.Jobs.Track.{Tasks}
use dial_f.Daemon.{DaemonState}
use dial_f.Control.{
  ControlError, by_config, not_attached, devices_unlisted, bind_failed, no_fuel, Payload,
  share_started, attached_data, share_stopped, share_running, share_idle, Handler, pure, lift,
  modify, gets, ◌>>=◌, ◌>>◌,
}

-- What the requests use of the network: socket addresses, a fresh token, the devices that an adb
-- server lists, whether it answers, and a bind of all the ports of a share. A bind that fails says
-- whether the address was in use, and one that succeeds where it landed.
pub record Network : Type 0 where
  pub parse_addr : Text → Option SockAddr
  pub new_token : Text
  pub list_devices : Upstream → Option (List Device)
  pub reachable : Upstream → Bool
  pub listen : ResolvedShare → DaemonState → Result Bool SockAddr

abbrev pub of_config : {A : Type 0} → Result ConfigError A → Result ControlError A
of_config (ok a) = ok a
of_config (err e) = err (by_config e)

-- parse_profile
unfoldable pub profile_of : Option Text → Result ControlError Profile
unfolding Resolved.parse_profile
profile_of none = ok adb
profile_of (some s) = of_config (Resolved.parse_profile s)

abbrev pub share_config : DaemonState → Profile → ShareConfig
share_config st adb = st.config_share

-- The settings of one run: what the request names replaces what the settings of the daemon say.
unfoldable pub choose_bind : Option Text → ShareConfig → ShareConfig
choose_bind none cfg = cfg
choose_bind (some bind) cfg = record cfg { bind = some bind }

unfoldable pub choose_expiry : Option ℤ → ShareConfig → ShareConfig
choose_expiry none cfg = cfg
choose_expiry (some secs) cfg = record cfg { expire_after = secs }

unfoldable pub choose_forwards : List ℕ → ShareConfig → ShareConfig
choose_forwards [] cfg = cfg
choose_forwards (p ∷ ps) cfg = record cfg { forward_ports = map port (p ∷ ps) }

unfoldable pub choose_devices : Bool → List Text → ShareConfig → ShareConfig
choose_devices true targets cfg = record cfg { all_devices = true; targets = [] }
choose_devices false [] cfg = cfg
choose_devices false (t ∷ ts) cfg = record cfg { targets = t ∷ ts; all_devices = false }

unfoldable pub requested :
    Option Text → List Text → Bool → Option ℤ → List ℕ → ShareConfig → ShareConfig
unfolding choose_bind choose_expiry choose_forwards choose_devices
requested bind targets all_devices expire_after forward_ports cfg =
    choose_devices all_devices targets
      (choose_forwards forward_ports (choose_expiry expire_after (choose_bind bind cfg)))

-- The serials that are not among the attached devices.
unfoldable pub missing : List Text → List Device → List Text
unfolding text_eq
missing wanted attached =
    keep (λ w. not (exists (λ (d : Device). text_eq d.serial w) attached)) wanted

-- A named device must be attached, when the adb server can tell.
unfoldable pub check_attached : Targets → Option (List Device) → Result ControlError (Unit {0})
unfolding missing
check_attached all listed = ok tt
check_attached (only wanted) none = ok tt
check_attached (only wanted) (some attached) =
    bail_if (not (is_empty (missing wanted attached))) (not_attached (missing wanted attached))

-- ShareHandle::seconds_remaining
unfoldable pub seconds_remaining : ℕ → ShareHandle → Option ℕ
seconds_remaining now h = elim h.expires_at [ none ↦ none | some at ↦ some ((at - now) / 1000) ]

unfoldable pub filter_live : Option ShareHandle → Option ShareHandle
filter_live none = none
filter_live (some h) = if h.live then some h else none

-- share/server.rs, start: the handle of a share whose ports are bound.
unfoldable pub new_handle : ResolvedShare → SockAddr → ℕ → ShareHandle
new_handle config addr now = record {
  config = record config { bound = addr };
  live = true;
  expires_at = elim config.expires_after [ none ↦ none | some secs ↦ some (now + secs * 1000) ];
}

module _ (net : Network) (tasks : Tasks) where
  -- A round of bind_share, by how the bind ended.
  unfoldable pub bound_or :
      ResolvedShare → Bool → Handler ShareHandle → Result Bool SockAddr → Handler ShareHandle
  unfolding new_handle
  bound_or config retry again (ok addr) st = (ok (new_handle config addr st.now), st)
  bound_or config retry again (err in_use) st = elim (retry && in_use) [
    | true ↦ again (tasks.elapse 25 st)
    | false ↦ (err bind_failed, st)
  ]

  unfoldable pub bind_rounds : ℕ → ResolvedShare → Bool → ℕ → Handler ShareHandle
  unfolding bound_or
  bind_rounds zero config retry deadline st = (err no_fuel, st)
  bind_rounds (suc fuel) config retry deadline st =
      bound_or config (retry && ltb st.now deadline) (bind_rounds fuel config retry deadline)
        (net.listen config st) st

  -- A share that replaces another one waits up to three seconds for its port.
  unfoldable pub bind_share : ResolvedShare → Bool → Handler ShareHandle
  unfolding bind_rounds
  bind_share config retry st = bind_rounds 121 config retry (st.now + 3000) st

  -- The old share is stopped before the new one is bound.
  unfoldable pub replace_share : ResolvedShare → Handler ResolvedShare
  unfolding bind_share
  replace_share resolved = do
    previous ← gets (λ (st : DaemonState). st.share)
    modify (λ st. record st { share = none })
    handle ← bind_share resolved (is_some previous)
    modify (λ st. record st { share = some handle })
    pure resolved

  unfoldable pub start_share :
      Profile
      → (bind : Option Text) → (targets : List Text) → (all_devices with_token : Bool)
      → (expire_after : Option ℤ) → (forward_ports : List ℕ) → Handler ResolvedShare
  unfolding requested resolve check_attached replace_share
  start_share profile bind targets all_devices with_token expire_after forward_ports = do
    cfg ← gets (λ (st : DaemonState). share_config st profile)
    resolved ← lift (
        of_config (
          resolve net.parse_addr net.new_token
            (requested bind targets all_devices expire_after forward_ports cfg) profile with_token))
    lift (check_attached resolved.exposed (net.list_devices resolved.source))
    replace_share resolved

  module _ {R : Type 0} where
    -- `share.start`
    unfoldable pub share_start :
        (profile bind : Option Text)
        → (targets : List Text) → (all_devices token : Bool) → (expire_after : Option ℤ)
        → (forward_ports : List ℕ) → Handler (Payload R)
    unfolding profile_of start_share seconds_remaining
    share_start profile bind targets all_devices token expire_after forward_ports = do
      p ← lift (profile_of profile)
      resolved ← start_share p bind targets all_devices token expire_after forward_ports
      gets (λ (st : DaemonState).
          share_started resolved
            (elim st.share [ none ↦ none | some h ↦ seconds_remaining st.now h ]))

    -- `share.devices`
    unfoldable pub share_devices : Option Text → Handler (Payload R)
    unfolding profile_of upstream_of
    share_devices profile = do
      p ← lift (profile_of profile)
      cfg ← gets (λ (st : DaemonState). share_config st p)
      upstream ← lift (of_config (upstream_of cfg p))
      devices ← lift (ok_or (net.list_devices upstream) devices_unlisted)
      pure (attached_data devices)

    -- `share.stop`: the slot is empty afterwards, and a share that had ended by itself is not counted.
    unfoldable pub share_stop : Option Text → Handler (Payload R)
    unfolding profile_of filter_live
    share_stop profile = do
      p ← lift (profile_of profile)
      running ← gets (λ (st : DaemonState). filter_live st.share)
      modify (λ st. record st { share = none })
      pure (share_stopped (is_some running))

    -- `share.status`
    unfoldable pub share_status : Option Text → Handler (Payload R)
    unfolding profile_of filter_live seconds_remaining
    share_status profile = do
      p ← lift (profile_of profile)
      gets (λ (st : DaemonState). elim (filter_live st.share) [
        | some h ↦
            share_running h.config (net.reachable h.config.source) (seconds_remaining st.now h)
        | none ↦ share_idle (share_config st p).enabled
      ])
