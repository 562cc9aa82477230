-- ===== src/Share/Adb/Wire/Relay.antt =====
-- share/adb.rs: what relay_filtered_list makes of the device lists of a server.
use dial_f.Prelude.{
  ℕ, zero, suc, ◌≤◌, ◌<◌, ◌≡◌, sym, ap, ◌∙◌, true, false, List, [], ◌∷◌, ◌++◌, map, All, arith,
  length, length-append,
}
use mathlib.Core.List.{append_assoc, append-nil}
use dial_f.Prelude.Outcome.{ok}
use dial_f.Prelude.Text.{Text, bytes, text_eq_refl}
use dial_f.Prelude.Text.Utf8.{from_utf8_lossy}
use dial_f.Share.Adb.{Targets}
use dial_f.Share.Adb.Devices.{filter_device_list}
use dial_f.Share.Adb.Wire.{
  Wires, frame, relay_lists, relay_round, relay_status, relay_filtered_list,
}
use dial_f.Share.Adb.Wire.Frames.{frame_eq, read_up-append, read_message-frame_up}

-- Lists of devices as messages, one behind the other.
abbrev pub frames : List Text → Text
frames [] = []
frames (p ∷ ps) = frame p ++ frames ps

-- A text that a message can carry.
abbrev pub IsSendable : Text → Type 0
IsSendable p = (length p < 65536) × (from_utf8_lossy p ≡ p)

abbrev pub filtered : Targets → List Text → List Text
filtered t ps = map (λ p. filter_device_list p t) ps

length-frames : (ps : List Text) → All IsSendable ps → length ps ≤ length (frames ps)
length-frames [] s = omega arith
length-frames (p ∷ ps) ((short, valid), s) = ground (
  arith,
  length-frames ps s,
  length-append (frame p) (frames ps),
  ap (length {A = ℕ}) (frame_eq p short),
)

-- The relay of a stream that ends behind its last list.
relay_lists-frames :
    (fuel : ℕ) (t : Targets) (ps : List Text) (w : Wires) (out : Text)
    → length ps < fuel
    → All IsSendable ps
    → relay_lists fuel t true (record w { up_in = frames ps; down_out = out })
      ≡ (ok tt, record w { up_in = []; down_out = out ++ frames (filtered t ps) })
unfolding relay_lists relay_round
relay_lists-frames zero t ps w out h s = absurd (omega arith)
relay_lists-frames (suc fuel) t [] w out h s =
    ap (λ o. (ok tt, record w { up_in = []; down_out = o })) (sym (append-nil out))
relay_lists-frames (suc fuel) t (p ∷ ps) w out h ((short, valid), s) =
    rw (read_message-frame_up p (frames ps) (record w { down_out = out }) short valid) (
      relay_lists-frames fuel t ps w (out ++ frame (filter_device_list p t)) (omega arith) s
      ∙ ap (λ o. (ok tt, record w { up_in = []; down_out = o }))
          (append_assoc out (frame (filter_device_list p t)) (frames (filtered t ps))))

-- What follows the status of a server that agrees.
followed :
    (t : Targets) (ps : List Text) (w : Wires)
    → All IsSendable ps
    → relay_status t true (ok (bytes "OKAY")) (record w { up_in = frames ps }) ≡ (
      ok tt,
      record w { up_in = []; down_out = w.down_out ++ (bytes "OKAY" ++ frames (filtered t ps)) },
    )
unfolding relay_status
followed t ps w s = rw (text_eq_refl (bytes "OKAY")) (
    relay_lists-frames (suc (length (frames ps))) t ps w (w.down_out ++ bytes "OKAY")
      (omega (arith, length-frames ps s)) s
    ∙ ap (λ o. (ok tt, record w { up_in = []; down_out = o }))
        (append_assoc w.down_out (bytes "OKAY") (frames (filtered t ps))))

once :
    (t : Targets) (p : Text) (ps : List Text) (w : Wires)
    → All IsSendable (p ∷ ps)
    → relay_status t false (ok (bytes "OKAY")) (record w { up_in = frames (p ∷ ps) }) ≡ (
      ok tt,
      record w {
        up_in = frames ps;
        down_out = w.down_out ++ (bytes "OKAY" ++ frame (filter_device_list p t));
      },
    )
unfolding relay_status relay_lists relay_round
once t p ps w ((short, valid), s) =
    rw
      (
        text_eq_refl (bytes "OKAY"),
        read_message-frame_up p (frames ps) (record w { down_out = w.down_out ++ bytes "OKAY" })
            short valid,
      )
      (ap (λ o. (ok tt, record w { up_in = frames ps; down_out = o }))
        (append_assoc w.down_out (bytes "OKAY") (frame (filter_device_list p t))))

-- A server answers a request for its devices with OKAY and then lists, each a message with a valid
-- payload below 64 KiB, and nothing else. A relay that follows the list passes OKAY on and then every
-- list as a message, in order, with no device but the shared ones, and ends when the server does. A
-- relay of one list passes OKAY and the first list on in the same way, and leaves the others unread.
pub relay_filtered_list-frames :
    (t : Targets) (p : Text) (ps : List Text) (w : Wires)
    → All IsSendable (p ∷ ps)
    → (relay_filtered_list t true (record w { up_in = bytes "OKAY" ++ frames (p ∷ ps) }) ≡ (
      ok tt,
      record w {
        up_in = [];
        down_out = w.down_out ++ (bytes "OKAY" ++ frames (filtered t (p ∷ ps)));
      },
    ))
      × (relay_filtered_list t false (record w { up_in = bytes "OKAY" ++ frames (p ∷ ps) }) ≡ (
        ok tt,
        record w {
          up_in = frames ps;
          down_out = w.down_out ++ (bytes "OKAY" ++ frame (filter_device_list p t));
        },
      ))
unfolding relay_filtered_list bytes
relay_filtered_list-frames t p ps w s = (
  rw (read_up-append (bytes "OKAY") (frames (p ∷ ps)) w) (followed t (p ∷ ps) w s),
  rw (read_up-append (bytes "OKAY") (frames (p ∷ ps)) w) (once t p ps w s),
)
