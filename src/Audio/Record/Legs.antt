-- ===== src/Audio/Record/Legs.antt =====
-- audio/record.rs: what a recording holds, whatever was captured and played.
use mathlib.Core.List.{append_assoc, append-nil}
use dial_f.Prelude.{
  ℕ, ◌+◌, ◌-◌, ◌/◌, ◌%◌, max, Bool, List, [], ◌∷◌, ◌++◌, length, length-append, ◌≡◌, refl, ap, ◌∙◌,
  arith,
}
use dial_f.Prelude.Outcome.{ok}
use dial_f.Prelude.Text.{Text, bytes}
use dial_f.Audio.Record.{
  Disk, Deed, WavFileSink, DuplexRecorder, Step, zeros, new_recorder, push_rx, rx_written,
  push_tx_at, tx_padded, tx_written, finish, leg_path, record_rate,
}
use dial_f.Audio.Record.Blamed.{
  IsSound, Yields, yields, Leaves, leaves, fails, Leaves-eq, and_then-Leaves, >>=-Yields,
  context-Yields, left_by-Yields, attempt-Yields, sound-Yields,
}
use dial_f.Audio.Record.Padded.{added, length-zeros, write-Leaves, pad_to-Leaves}
use dial_f.Audio.Record.Expected.{
  Push, rx, tx_at, push_all, record_all, captured, played, as_long, leg, recording,
}
use dial_f.Audio.Record.Mixed.{create-Yields, finalize-Yields, mix_legs-Yields}

pub length-as_long : (xs ys : List ℕ) → length (as_long xs ys) ≡ max (length xs) (length ys)
length-as_long xs ys =
    rw (length-append xs (zeros (length ys - length xs)), length-zeros (length ys - length xs))
      (omega arith)

module _ (dir session : Text) (mix tx_left : Bool) where
  -- A recorder whose legs hold these samples.
  abbrev pub kept : List ℕ → List ℕ → DuplexRecorder
  kept xs ys = record {
    rx = leg (leg_path dir session (bytes "-rx.wav")) xs;
    tx = leg (leg_path dir session (bytes "-tx.wav")) ys;
    dir = dir;
    session = session;
    mix = mix;
    mix_tx_left = tx_left;
    rx_len = length xs;
    tx_len = length ys;
    silence = 4096;
  }

  module _ (disk : Disk) where
    rx_written-Leaves :
        (n : ℕ) (r : DuplexRecorder) {st : Step WavFileSink} (sink : WavFileSink)
        → Leaves disk sink st
        → Leaves disk
            (record r { rx = sink; rx_len = r.rx_len + n / max sink.channels 1 })
            (rx_written disk n r st)
    unfolding rx_written
    rx_written-Leaves n r sink (leaves s h) =
        leaves _ (
          ap (λ (v : WavFileSink). record r { rx = v; rx_len = r.rx_len + n / max v.channels 1 }) h)
    rx_written-Leaves n r sink (fails e s h) = fails e (record r { rx = s }) h

    tx_written-Leaves :
        (n : ℕ) (r : DuplexRecorder) {st : Step WavFileSink} (sink : WavFileSink)
        → Leaves disk sink st
        → Leaves disk
            (record r { tx = sink; tx_len = r.tx_len + n / max sink.channels 1 })
            (tx_written disk n r st)
    unfolding tx_written
    tx_written-Leaves n r sink (leaves s h) =
        leaves _ (
          ap (λ (v : WavFileSink). record r { tx = v; tx_len = r.tx_len + n / max v.channels 1 }) h)
    tx_written-Leaves n r sink (fails e s h) = fails e (record r { tx = s }) h

    tx_padded-Leaves :
        (o : ℕ) (ss : List ℕ) (r : DuplexRecorder) {st : Step WavFileSink} (sink : WavFileSink)
        → Leaves disk sink st
        → Leaves disk
            (record r {
              tx = added ss sink;
              tx_len = max r.tx_len o + length ss / max sink.channels 1;
            })
            (tx_padded disk o ss r st)
    unfolding tx_padded
    tx_padded-Leaves o ss r sink (leaves s h) = rw h (
        tx_written-Leaves (length ss) (record r { tx_len = max r.tx_len o }) (added ss sink)
          (write-Leaves disk ss sink))
    tx_padded-Leaves o ss r sink (fails e s h) = fails e (record r { tx = s }) h

    push_rx-kept :
        (s xs ys : List ℕ) → Leaves disk (kept (xs ++ s) ys) (push_rx disk s (kept xs ys))
    unfolding push_rx
    push_rx-kept s xs ys =
        let h : length xs + length s / 1 ≡ length (xs ++ s) = omega (arith, length-append xs s) in
        Leaves-eq disk (ap (λ (n : ℕ). record (kept (xs ++ s) ys) { rx_len = n }) h)
          (rx_written-Leaves (length s) (kept xs ys) _ (write-Leaves disk s (kept xs ys).rx))

    push_tx_at-kept :
        (o : ℕ) (s xs ys : List ℕ)
        → Leaves disk
            (kept xs ((ys ++ zeros (o - length ys)) ++ s))
            (push_tx_at disk o s (kept xs ys))
    unfolding push_tx_at
    push_tx_at-kept o s xs ys =
        let quiet : List ℕ = zeros (o - length ys) in
        let h : max (length ys) o + length s / 1 ≡ length ((ys ++ quiet) ++ s) = omega (
          arith,
          length-append (ys ++ quiet) s,
          length-append ys quiet,
          length-zeros (o - length ys),
        ) in
        Leaves-eq disk (ap (λ (n : ℕ). record (kept xs ((ys ++ quiet) ++ s)) { tx_len = n }) h) (
          tx_padded-Leaves o s (kept xs ys) _
            (pad_to-Leaves disk (length ys) o 4096 (kept xs ys).tx refl (omega arith)))

    push_all-kept :
        (ps : List Push) (xs ys : List ℕ)
        → Leaves disk
            (kept (xs ++ captured ps) (ys ++ played (length ys) ps))
            (push_all disk ps (kept xs ys))
    push_all-kept [] xs ys = rw (append-nil xs, append-nil ys) (leaves _ refl)
    push_all-kept (rx s ∷ ps) xs ys =
        and_then-Leaves disk _ (kept (xs ++ s) ys) _ (push_rx-kept s xs ys) (
          Leaves-eq disk
            (ap (λ v. kept v (ys ++ played (length ys) ps)) (append_assoc xs s (captured ps)))
            (push_all-kept ps (xs ++ s) ys))
    push_all-kept (tx_at o s ∷ ps) xs ys =
        let quiet : List ℕ = zeros (o - length ys) in
        let n : length ((ys ++ quiet) ++ s) ≡ max (length ys) o + length s = omega (
          arith,
          length-append (ys ++ quiet) s,
          length-append ys quiet,
          length-zeros (o - length ys),
        ) in
        and_then-Leaves disk _ (kept xs ((ys ++ quiet) ++ s)) _ (push_tx_at-kept o s xs ys) (
          Leaves-eq disk
            (ap (λ m. kept (xs ++ captured ps) (((ys ++ quiet) ++ s) ++ played m ps)) n
              ∙ ap (λ v. kept (xs ++ captured ps) v)
                  (append_assoc (ys ++ quiet) s (played (max (length ys) o + length s) ps)
                    ∙ append_assoc ys quiet (s ++ played (max (length ys) o + length s) ps)))
            (push_all-kept ps xs ((ys ++ quiet) ++ s)))

    finish-kept :
        (xs ys : List ℕ)
        → Yields disk (recording dir session mix tx_left xs ys) (finish disk (kept xs ys))
    unfolding finish
    finish-kept xs ys =
        let total : ℕ = max (length xs) (length ys) in
        let a : total - length xs ≡ length ys - length xs = omega arith in
        let b : total - length ys ≡ length xs - length ys = omega arith in
        let out = recording dir session mix tx_left xs ys in
        let whole = λ (n : ℕ). let h : n % 1 ≡ 0 = omega arith in h in
        let even : length (as_long ys xs) ≡ length (as_long xs ys) =
          omega (arith, length-as_long xs ys, length-as_long ys xs) in
        >>=-Yields disk _ out.rx out
          (left_by-Yields disk (
            Leaves-eq disk (ap (λ n. added (zeros n) (kept xs ys).rx) a)
              (pad_to-Leaves disk (length xs) total 4096 (kept xs ys).rx refl (omega arith))))
          (>>=-Yields disk _ out.tx out
            (left_by-Yields disk (
              Leaves-eq disk (ap (λ n. added (zeros n) (kept xs ys).tx) b)
                (pad_to-Leaves disk (length ys) total 4096 (kept xs ys).tx refl (omega arith))))
            (>>=-Yields disk _ out.rx out
              (context-Yields disk _ (finalize-Yields disk out.rx (whole (length (as_long xs ys)))))
              (>>=-Yields disk _ out.tx out
                (context-Yields disk _
                  (finalize-Yields disk out.tx (whole (length (as_long ys xs)))))
                (>>=-Yields disk _ out.mix out
                  (mix_legs-Yields disk dir session mix tx_left mix (as_long xs ys) (as_long ys xs)
                    even)
                  (yields _ refl)))))

    -- A recording comes to an end, whatever was captured and played and whatever uses of the disk fail.
    -- Either it fails with the error of a use of the disk that failed, or its rx leg is what was
    -- captured, its tx leg is each prompt at its offset or behind the prompt before it, with silence in
    -- the gaps, the shorter leg is filled up with silence to the length of the other, and a mix, if one
    -- was asked for, is the two legs frame by frame, tx left or right as asked.
    pub record_all-Yields :
        (ps : List Push)
        → Yields disk
            (recording dir session mix tx_left (captured ps) (played 0 ps))
            (record_all disk dir session mix tx_left ps)
    unfolding new_recorder
    record_all-Yields ps =
        let out = recording dir session mix tx_left (captured ps) (played 0 ps) in
        let start : DuplexRecorder = kept [] [] in
        let done : DuplexRecorder = kept (captured ps) (played 0 ps) in
        >>=-Yields disk _ start out
          (>>=-Yields disk _ tt start
            (context-Yields disk _ (attempt-Yields disk Deed.making_dir dir))
            (>>=-Yields disk _ start.rx start (create-Yields disk start.rx.path record_rate 1) (
              >>=-Yields disk _ start.tx start (create-Yields disk start.tx.path record_rate 1)
                (yields _ refl))))
          (>>=-Yields disk _ done out (left_by-Yields disk (push_all-kept ps [] []))
            (finish-kept (captured ps) (played 0 ps)))

    -- On a disk that does not fail, the recording is there.
    pub record_all_lem :
        IsSound disk
        → (ps : List Push)
        → record_all disk dir session mix tx_left ps
          ≡ ok (recording dir session mix tx_left (captured ps) (played 0 ps))
    record_all_lem sound ps = sound-Yields disk sound (record_all-Yields ps)
