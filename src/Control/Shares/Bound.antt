-- ===== src/Control/Shares/Bound.antt =====
-- daemon.rs: how the bind of a share ends.
use dial_f.Prelude.{
  ℕ, zero, suc, ◌+◌, ◌*◌, ◌≤◌, ◌<◌, ◌≡◌, ◌≢◌, refl, ◌∙◌, Bool, true, false, ◌&&◌, none, arith, ltb,
}
use dial_f.Prelude.Outcome.{Result, ok, err}
use dial_f.Share.Config.Resolved.{ResolvedShare, SockAddr}
use dial_f.Share.Listener.{ShareHandle}
use dial_f.Jobs.Track.{Tasks}
use dial_f.Jobs.Phone.Waiting.{IsForward}
use dial_f.Daemon.{DaemonState}
use dial_f.Control.{ControlError, no_fuel, Handler}
use dial_f.Control.Shares.{Network, new_handle, bound_or, bind_rounds, bind_share}

-- The other tasks leave the slot of the share alone, which the request has locked.
abbrev pub IsLocked : Tasks → Type 0
IsLocked tasks = (n : ℕ) (w : DaemonState) → (tasks.elapse n w).share ≡ w.share

-- A share that is bound serves what it was asked to, on the port where the bind landed; the slot is
-- empty.
abbrev pub IsBound :
    Network → ResolvedShare → Result ControlError ShareHandle × DaemonState → Type 0
IsBound net config (ok h, st) =
    (addr : SockAddr) × (net.listen config st ≡ ok addr)
    × (st.share ≡ none)
    × (h.live ≡ true)
    × (h.config ≡ record config { bound = addr })
IsBound net config (err e, st) = st.share ≡ none

and-ltb : (b : Bool) (m n : ℕ) → (b && ltb m n) ≡ true → m < n
and-ltb true m n h = ground (arith, h)
and-ltb false m n h = cc

lt-absurd : (m n : ℕ) → n ≤ m → m < n → ⊥
lt-absurd m n h k = omega (arith, h, k)

module _ (net : Network) (tasks : Tasks) where
  bound_or-IsBound :
      (config : ResolvedShare) (retry : Bool) (again : Handler ShareHandle)
      (r : Result Bool SockAddr) (st : DaemonState)
      → ((v : DaemonState) → v.share ≡ none → IsBound net config (again v))
      → net.listen config st ≡ r
      → IsLocked tasks
      → st.share ≡ none
      → IsBound net config (bound_or net tasks config retry again r st)
  unfolding bound_or new_handle
  bound_or-IsBound config retry again (ok addr) st next at locked h = (addr, at, h, refl, refl)
  bound_or-IsBound config true again (err true) st next at locked h = next _ (locked 25 st ∙ h)
  bound_or-IsBound config true again (err false) st next at locked h = h
  bound_or-IsBound config false again (err b) st next at locked h = h

  pub bind_rounds-IsBound :
      (fuel : ℕ) (config : ResolvedShare) (retry : Bool) (deadline : ℕ) (st : DaemonState)
      → IsLocked tasks
      → st.share ≡ none
      → IsBound net config (bind_rounds net tasks fuel config retry deadline st)
  unfolding bind_rounds
  bind_rounds-IsBound zero config retry deadline st locked h = h
  bind_rounds-IsBound (suc fuel) config retry deadline st locked h =
      bound_or-IsBound config (retry && ltb st.now deadline) _ (net.listen config st) st
        (λ v k. bind_rounds-IsBound fuel config retry deadline v locked k) refl locked h

  bound_or-fuel :
      (config : ResolvedShare) (retry : Bool) (again : Handler ShareHandle)
      (r : Result Bool SockAddr) (st : DaemonState)
      → (retry ≡ true → (again (tasks.elapse 25 st)).0 ≢ err no_fuel)
      → (bound_or net tasks config retry again r st).0 ≢ err no_fuel
  unfolding bound_or
  bound_or-fuel config retry again (ok addr) st next = λ e. cc
  bound_or-fuel config true again (err true) st next = next refl
  bound_or-fuel config true again (err false) st next = λ e. cc
  bound_or-fuel config false again (err b) st next = λ e. cc

  bind_rounds-fuel :
      (fuel : ℕ) (config : ResolvedShare) (retry : Bool) (deadline : ℕ) (st : DaemonState)
      → IsForward tasks
      → deadline ≤ st.now + 25 * fuel
      → (bind_rounds net tasks (suc fuel) config retry deadline st).0 ≢ err no_fuel
  unfolding bind_rounds
  bind_rounds-fuel zero config retry deadline st forward h =
      let again = bind_rounds net tasks 0 config retry deadline in
      bound_or-fuel config (retry && ltb st.now deadline) again (net.listen config st) st
        (λ e. absurd (lt-absurd st.now deadline (omega arith) (and-ltb retry st.now deadline e)))
  bind_rounds-fuel (suc fuel) config retry deadline st forward h =
      let again = bind_rounds net tasks (suc fuel) config retry deadline in
      bound_or-fuel config (retry && ltb st.now deadline) again (net.listen config st) st (λ e.
        bind_rounds-fuel fuel config retry deadline (tasks.elapse 25 st) forward
          (omega (arith, forward 25 st)))

  -- The bind of a share always ends: while the clock of the daemon runs, 121 rounds are enough for the
  -- three seconds that a share waits for its port, whatever the binds say.
  pub bind_share-fuel :
      (config : ResolvedShare) (retry : Bool) (st : DaemonState)
      → IsForward tasks
      → (bind_share net tasks config retry st).0 ≢ err no_fuel
  unfolding bind_share
  bind_share-fuel config retry st forward =
      bind_rounds-fuel 120 config retry (st.now + 3000) st forward (omega arith)
