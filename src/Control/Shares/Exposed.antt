-- ===== src/Control/Shares/Exposed.antt =====
-- daemon.rs: what a share exposes once it has started.
use dial_f.Prelude.{
  ℕ, ◌+◌, ◌≡◌, ◌⊎◌, refl, Bool, true, false, not, Option, none, some, List, [], ◌∷◌, map, keep,
  is_empty, inl, inr,
}
use dial_f.Prelude.Outcome.{Result, ok, err}
use dial_f.Prelude.Text.{Text, trim, is_some}
use dial_f.Share.Adb.{all, only}
use dial_f.Share.Config.{ConfigError}
use dial_f.Share.Config.Resolved.{Profile, ShareConfig, ResolvedShare, SockAddr, ℤ, resolve}
use dial_f.Share.Config.Resolved.Safe.{IsSafe, named_targets, resolve-IsSafe}
use dial_f.Share.Listener.{ShareHandle}
use dial_f.Jobs.Track.{Tasks}
use dial_f.Daemon.{DaemonState}
use dial_f.Control.{ControlError, ◌>>=◌, ◌>>◌, lift, modify, pure}
use dial_f.Control.Shares.{
  Network, of_config, share_config, requested, choose_devices, check_attached, bind_share,
  replace_share, start_share,
}
use dial_f.Control.Shares.Bound.{IsLocked, IsBound, bind_rounds-IsBound}

-- The devices of a request: all of them, or those that it names, whatever the settings say.
abbrev pub Exposes : Bool → List Text → ResolvedShare → Type 0
Exposes true targets share = share.exposed ≡ all
Exposes false [] share = Unit {0}
Exposes false (t ∷ ts) share =
    share.exposed ≡ only (keep (λ s. not (is_empty s)) (map trim (t ∷ ts)))

requested-Exposes :
    (bind : Option Text) (targets : List Text) (all_devices with_token : Bool)
    (expire_after : Option ℤ) (ports : List ℕ) (cfg : ShareConfig) (share : ResolvedShare)
    → IsSafe (requested bind targets all_devices expire_after ports cfg) with_token share
    → Exposes all_devices targets share
unfolding requested choose_devices named_targets
requested-Exposes bind targets true with_token expire_after ports cfg share h = h.3
requested-Exposes bind [] false with_token expire_after ports cfg share h = tt
requested-Exposes bind (t ∷ ts) false with_token expire_after ports cfg share h = h.3

-- A share that has started was bound while the slot was empty, is then put there alone, is live, and
-- serves `P` at the address where the bind landed. After a failure the slot has the share
-- that it had, or none.
abbrev pub IsStarted :
    Network
    → (ResolvedShare → Type 0)
    → Option ShareHandle
    → Result ControlError ResolvedShare × DaemonState
    → Type 0
IsStarted net P before (ok share, st) =
    (h : ShareHandle) × (addr : SockAddr) × (v : DaemonState) × (net.listen share v ≡ ok addr)
    × (v.share ≡ none)
    × (st ≡ record v { share = some h })
    × (h.live ≡ true)
    × (h.config ≡ record share { bound = addr })
    × P share
IsStarted net P before (err e, st) = (st.share ≡ before) ⊎ (st.share ≡ none)

module _ (net : Network) (tasks : Tasks) (P : ResolvedShare → Type 0) where
  after_bind-IsStarted :
      (before : Option ShareHandle) (share : ResolvedShare) (r : Result ControlError ShareHandle)
      (st : DaemonState)
      → P share
      → IsBound net share (r, st)
      → IsStarted net P before (
          ((λ (w : DaemonState). (r, w)) >>= λ handle.
          modify (λ w. record w { share = some handle }) >> pure share)
            st)
  after_bind-IsStarted before share (ok h) st safe (addr, at, empty, live, config) =
      (h, addr, st, at, empty, refl, live, config, safe)
  after_bind-IsStarted before share (err e) st safe b = inr b

  replace_share-IsStarted :
      (share : ResolvedShare) (st : DaemonState)
      → IsLocked tasks
      → P share
      → IsStarted net P st.share (replace_share net tasks share st)
  unfolding replace_share bind_share
  replace_share-IsStarted share st locked safe =
      let w : DaemonState = record st { share = none } in
      let b = bind_share net tasks share (is_some st.share) w in
      after_bind-IsStarted st.share share b.0 b.1 safe
        (bind_rounds-IsBound net tasks 121 share (is_some st.share) (w.now + 3000) w locked refl)

  attached-IsStarted :
      (share : ResolvedShare) (r : Result ControlError (Unit {0})) (st : DaemonState)
      → IsLocked tasks
      → P share
      → IsStarted net P st.share ((lift r >> replace_share net tasks share) st)
  attached-IsStarted share (err e) st locked safe = inl refl
  attached-IsStarted share (ok u) st locked safe = replace_share-IsStarted share st locked safe

  checked-IsStarted :
      (r : Result ConfigError ResolvedShare) (st : DaemonState)
      → IsLocked tasks
      → ((share : ResolvedShare) → r ≡ ok share → P share)
      → IsStarted net P st.share (
          (lift (of_config r) >>= λ share.
          lift (check_attached share.exposed (net.list_devices share.source))
          >> replace_share net tasks share)
            st)
  checked-IsStarted (err e) st locked safe = inl refl
  checked-IsStarted (ok share) st locked safe =
      attached-IsStarted share (check_attached share.exposed (net.list_devices share.source)) st
        locked (safe share refl)

-- A request to share devices, while it has the slot of the share for itself. When it succeeds the share
-- in the slot is live and serves what was resolved, at the address where the bind of its ports landed,
-- and that bind was made while the slot was empty. That share is safe in
-- the sense of its settings, and it exposes exactly the devices that the request names, or all of them
-- if it says so: a list in the settings of the daemon does not widen it. When the request fails, the
-- slot has the share that it had, or none.
pub start_share-IsStarted :
    (net : Network) (tasks : Tasks) (profile : Profile) (bind : Option Text) (targets : List Text)
    (all_devices with_token : Bool) (expire_after : Option ℤ) (ports : List ℕ) (st : DaemonState)
    → IsLocked tasks
    → IsStarted net
        (λ share.
          IsSafe
            (requested bind targets all_devices expire_after ports (share_config st profile))
            with_token
            share
          × Exposes all_devices targets share)
        st.share
        (start_share net tasks profile bind targets all_devices with_token expire_after ports st)
unfolding start_share
start_share-IsStarted net tasks profile bind targets all_devices with_token expire_after ports st
      locked =
    let cfg = requested bind targets all_devices expire_after ports (share_config st profile) in
    checked-IsStarted net tasks _ (resolve net.parse_addr net.new_token cfg profile with_token) st
      locked
      (λ share e.
        let safe = resolve-IsSafe net.parse_addr net.new_token cfg profile with_token share e in
        (
          safe,
          requested-Exposes bind targets all_devices with_token expire_after ports _ share safe,
        ))
