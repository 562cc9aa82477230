-- ===== src/Audio/Record/Padded.antt =====
-- audio/record.rs: what a write and a padding leave.
use mathlib.Core.List.{append_assoc, append-nil}
use dial_f.Prelude.{
  ℕ, max, zero, suc, ◌+◌, ◌-◌, ◌*◌, ◌≤◌, ◌<◌, min, Option, none, some, List, [], ◌∷◌, ◌++◌, length,
  leb, ◌≡◌, refl, sym, ap, ◌∙◌, arith, leb→le, Bool-cases, inl, inr,
}
use dial_f.Prelude.Text.{Text}
use dial_f.Audio.Record.{
  Disk, Deed, io_failed, WavFileSink, zeros, write_sample, write, pad_rounds, grown, pad_to,
}
use dial_f.Audio.Record.Blamed.{Leaves, leaves, fails, Leaves-eq, and_then-Leaves}

-- A sink with more samples.
abbrev pub added : List ℕ → WavFileSink → WavFileSink
added ss sink = record sink { samples = sink.samples ++ ss }

pub added-added :
    (ss ts : List ℕ) (sink : WavFileSink) → added ts (added ss sink) ≡ added (ss ++ ts) sink
added-added ss ts sink =
    ap (λ (xs : List ℕ). record sink { samples = xs }) (append_assoc sink.samples ss ts)

pub added-nil : (sink : WavFileSink) → added [] sink ≡ sink
added-nil sink = ap (λ (xs : List ℕ). record sink { samples = xs }) (append-nil sink.samples)

pub zeros_add : (m n : ℕ) → zeros m ++ zeros n ≡ zeros (m + n)
zeros_add zero n = ap zeros (omega arith)
zeros_add (suc m) n =
    let h : suc (m + n) ≡ suc m + n = omega arith in ap (λ xs. 0 ∷ xs) (zeros_add m n) ∙ ap zeros h

pub length-zeros : (n : ℕ) → length (zeros n) ≡ n
length-zeros zero = refl
length-zeros (suc n) = ap suc (length-zeros n)

module _ (disk : Disk) where
  write_sample-when :
      (d : Deed) (path : Text) (o : Option Text)
      → disk.fault d path ≡ o
      → (s : ℕ) (sink : WavFileSink)
      → Leaves disk (added (s ∷ []) sink) (write_sample disk o s sink)
  unfolding write_sample
  write_sample-when d path none h s sink = leaves (added (s ∷ []) sink) refl
  write_sample-when d path (some t) h s sink = fails (io_failed t) sink (d, path, h)

  pub write-Leaves :
      (ss : List ℕ) (sink : WavFileSink) → Leaves disk (added ss sink) (write disk ss sink)
  unfolding write
  write-Leaves [] sink = leaves sink (sym (added-nil sink))
  write-Leaves (s ∷ ss) sink =
      let d : Deed = Deed.writing (length sink.samples) in
      let next : WavFileSink = added (s ∷ []) sink in
      and_then-Leaves disk _ next (added (s ∷ ss) sink)
        (write_sample-when d sink.path (disk.fault d sink.path) refl s sink)
        (Leaves-eq disk (added-added (s ∷ []) ss sink) (write-Leaves ss next))

  -- Each round writes at least one sample of the silence that remains.
  pub pad_rounds-Leaves :
      (fuel scratch n : ℕ) (sink : WavFileSink)
      → n < fuel
      → 1 ≤ scratch
      → Leaves disk (added (zeros n) sink) (pad_rounds disk fuel scratch n sink)
  unfolding pad_rounds
  pad_rounds-Leaves zero scratch n sink h k = absurd (omega arith)
  pad_rounds-Leaves (suc fuel) scratch zero sink h k = leaves sink (sym (added-nil sink))
  pad_rounds-Leaves (suc fuel) scratch (suc n) sink h k =
      let chunk : ℕ = min (suc n) scratch in
      let next : WavFileSink = added (zeros chunk) sink in
      let all : chunk + (suc n - chunk) ≡ suc n = omega arith in
      and_then-Leaves disk _ next (added (zeros (suc n)) sink) (write-Leaves (zeros chunk) sink) (
        Leaves-eq disk
          (added-added (zeros chunk) (zeros (suc n - chunk)) sink
            ∙ ap (λ v. added v sink) (zeros_add chunk (suc n - chunk) ∙ ap zeros all))
          (pad_rounds-Leaves fuel scratch (suc n - chunk) next (omega arith) k))

  -- On a leg of one channel, the padding is a sample for each frame that is missing.
  pub pad_to-Leaves :
      (have want scratch : ℕ) (sink : WavFileSink)
      → sink.channels ≡ 1
      → 1 ≤ scratch
      → Leaves disk (added (zeros (want - have)) sink) (pad_to disk have want scratch sink)
  unfolding pad_to grown
  pad_to-Leaves have want zero sink c k = absurd (omega arith)
  pad_to-Leaves have want (suc scratch) sink c k = elim (Bool-cases (leb want have)) [
    | inl e ↦
        let le = leb→le want have e in
        let h : 0 ≡ want - have = omega arith in
        rw e (leaves sink (sym (added-nil sink) ∙ ap (λ n. added (zeros n) sink) h))
    | inr e ↦
        let m : max sink.channels 1 ≡ 1 = omega arith in
        let one : (want - have) * 1 ≡ want - have = omega arith in
        let h : (want - have) * max sink.channels 1 ≡ want - have =
          ap (λ k. (want - have) * k) m ∙ one in
        rw (e, h)
          (pad_rounds-Leaves (want - have + 1) (suc scratch) (want - have) sink (omega arith)
            (omega arith))
  ]
