-- ===== src/Share/Adb/Wire/Frames.antt =====
-- share/adb.rs: messages that are written are read back, and the relay ends by itself.
use dial_f.Prelude.{
  ℕ, zero, suc, ◌+◌, ◌≤◌, ◌<◌, ◌≡◌, refl, ap, Bool, true, false, some, [], ◌∷◌, ◌++◌, arith, length,
  take, drop, length-append,
}
use dial_f.Prelude.Outcome.{Result, ok, err}
use dial_f.Prelude.Text.{Text}
use dial_f.Prelude.Text.Utf8.{
  from_utf8_lossy, four_digits, hex4-four_digits, parse_unsigned-four_digits,
}
use dial_f.Share.Adb.{Targets}
use dial_f.Share.Adb.Wire.{
  Wires, Wire, WireError, continue, done, read_down, read_up, read_message, read_payload,
  read_sized, message_length, frame, relay_lists, relay_round, split_exact,
}

take-append : (a b : Text) → take (length a) (a ++ b) ≡ a
take-append [] b = refl
take-append (x ∷ a) b = ap (λ s. x ∷ s) (take-append a b)

drop-append : (a b : Text) → drop (length a) (a ++ b) ≡ b
drop-append [] b = refl
drop-append (x ∷ a) b = drop-append a b

split_exact-append : (a b : Text) → split_exact (length a) (a ++ b) ≡ some (a, b)
split_exact-append a b = ground (arith, length-append a b, take-append a b, drop-append a b)

message_length-four_digits : (n : ℕ) → n < 65536 → message_length (four_digits n) ≡ ok n
unfolding message_length
message_length-four_digits n h = rw (parse_unsigned-four_digits n h, message_length) (ground arith)

read_down-append :
    (a r : Text) (w : Wires)
    → read_down (length a) (record w { down_in = a ++ r }) ≡ (ok a, record w { down_in = r })
read_down-append a r w = ground (arith, split_exact-append a r)

pub frame_eq :
    (payload : Text)
    → length payload < 65536
    → frame payload ≡ four_digits (length payload) ++ payload
unfolding frame
frame_eq payload h = ap (λ s. s ++ payload) (hex4-four_digits (length payload) h)

-- A valid payload below 64 KiB that was written as a message is read back from what follows on.
pub read_message-frame :
    (payload rest : Text) (w : Wires)
    → length payload < 65536
    → from_utf8_lossy payload ≡ payload
    → read_message read_down (record w { down_in = frame payload ++ rest })
      ≡ (ok payload, record w { down_in = rest })
unfolding read_message read_sized read_payload
read_message-frame payload rest w h valid = rw (frame_eq payload h) (
    ground (
      arith,
      message_length-four_digits (length payload) h,
      read_down-append (four_digits (length payload)) (payload ++ rest) w,
      read_down-append payload rest w,
      valid,
    ))

length-drop : (n : ℕ) (s : Text) → n ≤ length s → length (drop n s) + n ≡ length s
length-drop zero s h = omega arith
length-drop (suc n) [] h = omega arith
length-drop (suc n) (x ∷ s) h = omega (arith, length-drop n s (omega arith))

read_up-ok :
    (n : ℕ) (w : Wires) {s : Text}
    → (read_up n w).0 ≡ ok s
    → length (read_up n w).1.up_in + n ≡ length w.up_in
read_up-ok n w h = ground (arith, length-drop n w.up_in)

read_up-le : (n : ℕ) (w : Wires) → length (read_up n w).1.up_in ≤ length w.up_in
read_up-le n w = ground (arith, length-drop n w.up_in)

finish-up_in :
    (r : Result WireError Text) (w : Wires)
    → (continue r (λ s. done (from_utf8_lossy s)) w).1.up_in ≡ w.up_in
finish-up_in (ok s) w = refl
finish-up_in (err e) w = refl

read_payload-le :
    (r : Result WireError ℕ) (w : Wires)
    → length (read_payload read_up r w).1.up_in ≤ length w.up_in
unfolding read_payload
read_payload-le (err e) w = omega arith
read_payload-le (ok n) w = rw (finish-up_in (read_up n w).0 (read_up n w).1) (read_up-le n w)

-- A message takes at least the four bytes of its length from the server.
message-shrinks :
    (w : Wires) {s : Text}
    → (read_message read_up w).0 ≡ ok s
    → length (read_message read_up w).1.up_in + 4 ≤ length w.up_in
unfolding read_message read_sized
message-shrinks w {s} h = go (read_up 4 w).0 refl h
  where
    go :
        (r : Result WireError Text)
        → (read_up 4 w).0 ≡ r
        → (read_sized read_up r (read_up 4 w).1).0 ≡ ok s
        → length (read_sized read_up r (read_up 4 w).1).1.up_in + 4 ≤ length w.up_in
    go (err e) q k = cc
    go (ok prefix) q k = omega (
      arith,
      read_up-ok 4 w {s = prefix} q,
      read_payload-le (message_length prefix) (read_up 4 w).1,
    )

same_round :
    (t : Targets) (k l : Wire (Unit {0})) (r : Result WireError Text) (v : Wires) (b : Bool)
    → ((s : Text) (v' : Wires) → r ≡ ok s → v'.up_in ≡ v.up_in → k v' ≡ l v')
    → relay_round t k b r v ≡ relay_round t l b r v
unfolding relay_round
same_round t k l (err e) v b h = refl
same_round t k l (ok s) v true h = h s _ refl refl
same_round t k l (ok s) v false h = refl

pub read_up-append :
    (a r : Text) (w : Wires)
    → read_up (length a) (record w { up_in = a ++ r }) ≡ (ok a, record w { up_in = r })
read_up-append a r w = ground (arith, split_exact-append a r)

pub read_message-frame_up :
    (payload rest : Text) (w : Wires)
    → length payload < 65536
    → from_utf8_lossy payload ≡ payload
    → read_message read_up (record w { up_in = frame payload ++ rest })
      ≡ (ok payload, record w { up_in = rest })
unfolding read_message read_sized read_payload
read_message-frame_up payload rest w h valid = rw (frame_eq payload h) (
    ground (
      arith,
      message_length-four_digits (length payload) h,
      read_up-append (four_digits (length payload)) (payload ++ rest) w,
      read_up-append payload rest w,
      valid,
    ))

-- With more rounds than the server's stream has bytes, the relay does not depend on the number of
-- rounds: it ends by itself.
pub relay_lists-fuel :
    (f g : ℕ) (t : Targets) (streaming : Bool) (w : Wires)
    → length w.up_in < f
    → length w.up_in < g
    → relay_lists f t streaming w ≡ relay_lists g t streaming w
unfolding relay_lists
relay_lists-fuel zero g t streaming w hf hg = elim hf [ ]
relay_lists-fuel (suc f) zero t streaming w hf hg = elim hg [ ]
relay_lists-fuel (suc f) (suc g) t streaming w hf hg =
    same_round t _ _ (read_message read_up w).0 (read_message read_up w).1 streaming λ s v e q.
      relay_lists-fuel f g t streaming v
        (omega (arith, message-shrinks w {s = s} e, ap (length {A = ℕ}) q))
        (omega (arith, message-shrinks w {s = s} e, ap (length {A = ℕ}) q))
