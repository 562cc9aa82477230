-- ===== src/Share/Adb/Wire.antt =====
-- share/adb.rs, the wire helpers and the gate. A socket is the list of the bytes that are still to
-- be read from it, and of those that were written to it.
pub mod Frames
pub mod Relay
pub mod Gate
use dial_f.Prelude.{
  ℕ, zero, suc, ◌+◌, ◌*◌, ◌^◌, Bool, true, false, Option, none, some, [], ◌++◌, length, take, drop,
  ltb, leb, if◌then◌else◌,
}
use dial_f.Prelude.Outcome.{Result, ok, err}
use dial_f.Prelude.Text.{Text, bytes, text_eq, parse_unsigned}
use dial_f.Prelude.Text.Utf8.{from_utf8_lossy, hex4}
use dial_f.Share.Adb.{Targets, Decision, forward, rewrite, filter_list, reject, decide}
use dial_f.Share.Adb.Devices.{filter_device_list}

-- The peer is `down`, the adb server `up`.
pub record Wires : Type 0 where
  pub down_in : Text
  pub down_out : Text
  pub up_in : Text
  pub up_out : Text
  -- The two sockets were joined by `copy_bidirectional`.
  pub spliced : Bool

pub data WireError : Type 0 where
  closed bad_length : WireError
  too_long : ℕ → WireError

abbrev pub Wire : Type 0 → Type 0
Wire A = Wires → Result WireError A × Wires

abbrev continue : {A B : Type 0} → Result WireError A → (A → Wire B) → Wire B
continue (ok a) f w = f a w
continue (err e) f w = (err e, w)

infixl 5 ◌>>=◌ ◌>>◌
abbrev pub ◌>>=◌ : {A B : Type 0} → Wire A → (A → Wire B) → Wire B
◌>>=◌ m f w = let (r, w') = m w in continue r f w'

abbrev pub ◌>>◌ : {A B : Type 0} → Wire A → Wire B → Wire B
m >> k = m >>= λ _. k

abbrev pub done : {A : Type 0} → A → Wire A
done a w = (ok a, w)

abbrev pub fail : {A : Type 0} → WireError → Wire A
fail e w = (err e, w)

-- read_exact: the first `n` bytes, or an error if the stream ends before.
abbrev pub split_exact : ℕ → Text → Option (Text × Text)
split_exact n s = if leb n (length s) then some (take n s, drop n s) else none

abbrev pub read_down : ℕ → Wire Text
read_down n w = elim (split_exact n w.down_in) [
  | none ↦ (err closed, record w { down_in = [] })
  | some (a, r) ↦ (ok a, record w { down_in = r })
]

abbrev pub read_up : ℕ → Wire Text
read_up n w = elim (split_exact n w.up_in) [
  | none ↦ (err closed, record w { up_in = [] })
  | some (a, r) ↦ (ok a, record w { up_in = r })
]

abbrev pub write_down : Text → Wire (Unit {0})
write_down s w = (ok tt, record w { down_out = w.down_out ++ s })

abbrev pub write_up : Text → Wire (Unit {0})
write_up s w = (ok tt, record w { up_out = w.up_out ++ s })

abbrev splice : Wire (Unit {0})
splice w = (ok tt, record w { spliced = true })

abbrev pub max_message : ℕ
max_message = 64 * 1024

-- The length that a prefix of four bytes states.
message_length : Text → Result WireError ℕ
message_length prefix = elim (parse_unsigned 16 (2 ^ 64) prefix) [
  | none ↦ err bad_length
  | some n ↦ if ltb max_message n then err (too_long n) else ok n
]

-- read_message, by the function that reads exactly so many bytes of its stream.
read_payload : (ℕ → Wire Text) → Result WireError ℕ → Wire Text
read_payload read (err e) w = (err e, w)
read_payload read (ok n) w = let (r, w') = read n w in continue r (λ s. done (from_utf8_lossy s)) w'

read_sized : (ℕ → Wire Text) → Result WireError Text → Wire Text
unfolding message_length read_payload
read_sized read (err e) w = (err e, w)
read_sized read (ok prefix) w = read_payload read (message_length prefix) w

pub read_message : (ℕ → Wire Text) → Wire Text
unfolding read_sized
read_message read w = let (r, w') = read 4 w in read_sized read r w'

-- The bytes of write_message.
pub frame : Text → Text
frame payload = hex4 (length payload) ++ payload

-- write_fail
write_fail : Text → Wire (Unit {0})
unfolding frame
write_fail reason = do write_down (bytes "FAIL"); write_down (frame reason)

-- A round of the relay's loop, once a message was read or not; `again` is the rest of the loop.
relay_round : Targets → Wire (Unit {0}) → Bool → Result WireError Text → Wire (Unit {0})
relay_round targets again streaming (err e) w = (ok tt, w)
relay_round targets again true (ok payload) w =
    again (record w { down_out = w.down_out ++ frame (filter_device_list payload targets) })
relay_round targets again false (ok payload) w =
    (ok tt, record w { down_out = w.down_out ++ frame (filter_device_list payload targets) })

-- The loop of relay_filtered_list; a round takes at least the four bytes of a length.
pub relay_lists : ℕ → Targets → Bool → Wire (Unit {0})
unfolding read_message frame relay_round
relay_lists zero targets streaming w = (ok tt, w)
relay_lists (suc fuel) targets streaming w =
    let (r, w') = read_message read_up w in
    relay_round targets (relay_lists fuel targets streaming) streaming r w'

-- A status other than OKAY is passed on, and the sockets are joined.
relay_status : Targets → Bool → Result WireError Text → Wire (Unit {0})
unfolding relay_lists
relay_status targets streaming (err e) w = (err e, w)
relay_status targets streaming (ok status) w =
    let v = record w { down_out = w.down_out ++ status } in
    if text_eq status (bytes "OKAY")
    then relay_lists (suc (length v.up_in)) targets streaming v
    else splice v

pub relay_filtered_list : Targets → Bool → Wire (Unit {0})
unfolding relay_status
relay_filtered_list targets streaming w =
    let (r, w') = read_up 4 w in relay_status targets streaming r w'

-- What follows the first request.
act : Text → Targets → Decision → Wire (Unit {0})
unfolding write_fail relay_filtered_list frame
act request targets (reject reason) = write_fail reason
act request targets (rewrite replacement) = do write_up (frame replacement); splice
act request targets forward = do write_up (frame request); splice
act request targets (filter_list streaming) = do
  write_up (frame request)
  relay_filtered_list targets streaming

-- Applies the sharing policy to one connection.
pub gate : Targets → Wire (Unit {0})
unfolding read_message act
gate targets = do request ← read_message read_down; act request targets (decide request targets)
