-- ===== src/Control/Inbound.antt =====
-- control_server.rs and daemon.rs: `dialf run --autoanswer`, a session that answers calls while its
-- client is connected.
pub mod Picture
mod Registered
pub mod Tracked
pub mod Refines
use dial_f.Prelude.{
  ℕ, ◌+◌, ◌%◌, ◌^◌, Bool, true, false, Option, none, some, List, [], ◌∷◌, if◌then◌else◌,
}
use dial_f.Prelude.Assoc.{insert}
use dial_f.Prelude.Text.{Text}
use dial_f.Daemon.{DaemonState, AutoanswerOverride, register_override, clear_overrides}

-- DaemonState::acquire_serve, and the drop of the guard it returns
unfoldable pub acquire_serve : DaemonState → Bool × DaemonState
acquire_serve st = if st.serve_busy then (false, st) else (true, record st { serve_busy = true })

unfoldable pub release_serve : DaemonState → DaemonState
release_serve st = record st { serve_busy = false }

-- DaemonState::next_serve_token, a counter of 64 bits
unfoldable pub next_serve_token : DaemonState → ℕ × DaemonState
next_serve_token st = (st.serve_token, record st { serve_token = (st.serve_token + 1) % 2 ^ 64 })

unfoldable pub register_all : List Text → AutoanswerOverride → DaemonState → DaemonState
unfolding insert
register_all [] ov st = st
register_all (n ∷ ns) ov st = register_all ns ov (register_override n ov st)

-- What `autoanswer.serve` does before it streams events, once it has the slot; the token is its own.
unfoldable pub open_serve : List Text → Text → Option Text → DaemonState → ℕ × DaemonState
unfolding next_serve_token register_all
open_serve numbers path device st =
    let (token, st1) = next_serve_token st in
    (token, register_all numbers (record { token = token; path = path; device = device }) st1)

unfoldable pub begin_serve :
    List Text → Text → Option Text → Bool × DaemonState → Option ℕ × DaemonState
unfolding open_serve
begin_serve numbers path device (false, st) = (none, st)
begin_serve numbers path device (true, st) =
    let (token, st1) = open_serve numbers path device st in (some token, st1)

-- The session starts, unless one is running: then the request is refused.
unfoldable pub start_serve : List Text → Text → Option Text → DaemonState → Option ℕ × DaemonState
unfolding acquire_serve begin_serve
start_serve numbers path device st = begin_serve numbers path device (acquire_serve st)

-- The client has gone.
unfoldable pub end_serve : ℕ → DaemonState → DaemonState
unfolding clear_overrides release_serve
end_serve token st = release_serve (clear_overrides token st)
