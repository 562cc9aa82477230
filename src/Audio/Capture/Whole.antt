-- ===== src/Audio/Capture/Whole.antt =====
-- audio/record.rs: the capture thread writes whole frames, however the reads cut them.
use mathlib.Core.List.{append_assoc, append-nil}
use dial_f.Prelude.{
  ℕ, max, ◌+◌, ◌*◌, ◌/◌, ◌≤◌, ◌<◌, Bool, true, false, ◌&&◌, List, [], ◌∷◌, ◌++◌, length,
  length-append, is_empty, if◌then◌else◌, ◌==◌, Bool-cases, inl, inr, ==_iff, not, ◌≡◌, ◌⊎◌, Option,
  none, some, refl, sym, ap, ◌∙◌, arith,
}
use dial_f.Prelude.Text.{Text}
use dial_f.Audio.Record.{Disk, RecordError, io_failed, WavFileSink, Step}
use dial_f.Audio.Record.Blamed.{
  Leaves, leaves, fails, Blames, Ends, ends, stops, and_then-Ends, Gives, left_by-Gives,
}
use dial_f.Audio.Record.Padded.{added, write-Leaves}
use dial_f.Audio.Capture.{
  Resampler, Round, CaptureState, whole_frames, try_send, renew, resample, listen, count_frames,
  after_write, at_end, handle_chunk, capture_round, capture_all, start_capture, run_capture,
}
use dial_f.Audio.Capture.Cut.{IsCut, whole_frames-IsCut}

-- The samples that the capture delivers, up to a read of nothing.
abbrev pub heard : List Round → List ℕ
heard [] = []
heard (round ∷ rounds) =
    let rest = heard rounds in if is_empty round.samples then [] else round.samples ++ rest

if_both {ℓ} :
    {A : Type ℓ} (P : A → Type 0) (b : Bool) (x y : A) → P x → P y → P (if b then x else y)
if_both P true x y hx hy = hx
if_both P false x y hx hy = hy

-- What was heard is in the file, up to a part of a frame; the frames are counted.
abbrev pub Carries : {R : Type 0} → ℕ → List ℕ → CaptureState R → Type 0
Carries channels all st =
    (st.rx.samples ++ st.carry ≡ all)
    × (length st.carry < channels)
    × (length st.rx.samples ≡ st.total * channels)

-- A use of the disk failed, or the capture could not be read.
abbrev pub Faults : Disk → (failure : Option Text) → RecordError → Type 0
Faults disk failure e = Blames disk e ⊎ ((t : Text) × (failure ≡ some t) × (e ≡ io_failed t))

joined :
    (all new written carry : List ℕ)
    → written ++ carry ≡ all
    → written ++ (carry ++ new) ≡ all ++ new
joined all new written carry h = sym (append_assoc written carry new) ∙ ap (λ v. v ++ new) h

counted :
    {total' total : ℕ} (n frames channels : ℕ)
    → total' ≡ total + n
    → total ≡ frames * channels
    → n / channels * channels ≡ n
    → total' ≡ (frames + n / channels) * channels
counted n frames channels e h k = grind arith

module _ {R : Type 0} (resampler : Resampler R) (disk : Disk) (failure : Option Text) (channels : ℕ)
    (positive : 1 ≤ channels) where
  try_send-Carries :
      (all : List ℕ) (room : Bool) (frame : List ℕ) (st : CaptureState R)
      → Carries channels all st
      → Carries channels all (try_send resampler disk channels room frame st)
  unfolding try_send
  try_send-Carries all room [] st h = h
  try_send-Carries all true (s ∷ frame) st h = h
  try_send-Carries all false (s ∷ frame) st h = h

  renew-Carries :
      (all : List ℕ) (active : Bool) (st : CaptureState R)
      → Carries channels all st
      → Carries channels all (renew resampler disk channels active st)
  unfolding renew
  renew-Carries all active st h =
      if_both (Carries channels all) (active && not st.was_active)
        (record st { resampler = resampler.fresh }) st h h

  listen-Carries :
      (all : List ℕ) (active room : Bool) (chunk : List ℕ) (st : CaptureState R)
      → Carries channels all st
      → Carries channels all (listen resampler disk channels active room chunk st)
  unfolding listen resample
  listen-Carries all false room chunk st h = renew-Carries all false st h
  listen-Carries all true room chunk st h =
      try_send-Carries all room _ _ (renew-Carries all true st h)

  after_write-Ends :
      (all : List ℕ) (round : Round) (chunk : List ℕ) (st : CaptureState R) (sink : WavFileSink)
      {written : Step WavFileSink}
      → Leaves disk sink written
      → Carries channels all (count_frames resampler disk channels chunk (record st { rx = sink }))
      → Ends
          (Faults disk failure)
          (Carries channels all)
          (after_write resampler disk channels round chunk st written)
  unfolding after_write count_frames
  after_write-Ends all round chunk st sink (leaves s e) h =
      ends _ (listen-Carries all round.vad_active round.vad_room chunk _ (rw e h))
  after_write-Ends all round chunk st sink (fails e s b) h = stops e _ (inl b)

  handle_chunk-Ends :
      (all new : List ℕ) (round : Round) (whole rest : List ℕ) (st : CaptureState R)
      → Carries channels all st
      → IsCut channels (st.carry ++ new) (whole, rest)
      → Ends
          (Faults disk failure)
          (Carries channels (all ++ new))
          (handle_chunk resampler disk channels round (whole, rest) st)
  unfolding handle_chunk count_frames
  handle_chunk-Ends all new round [] rest st h cut =
      ends _
        (ap (λ v. st.rx.samples ++ v) cut.0 ∙ joined all new st.rx.samples st.carry h.0, cut.1, h.2)
  handle_chunk-Ends all new round (s ∷ whole) rest st h cut =
      let xs : List ℕ = s ∷ whole in
      after_write-Ends (all ++ new) round xs (record st { carry = rest }) (added xs st.rx)
        (write-Leaves disk xs st.rx)
        (
          append_assoc st.rx.samples xs rest
              ∙ (ap (λ v. st.rx.samples ++ v) cut.0 ∙ joined all new st.rx.samples st.carry h.0),
          cut.1,
          counted (length xs) st.total channels (length-append st.rx.samples xs) h.2 cut.2,
        )

  capture_round-Ends :
      (all : List ℕ) (round : Round) (st : CaptureState R)
      → Carries channels all st
      → Ends
          (Faults disk failure)
          (Carries channels (all ++ round.samples))
          (capture_round resampler disk channels round st)
  unfolding capture_round
  capture_round-Ends all round st h =
      handle_chunk-Ends all round.samples round (whole_frames channels st.carry round.samples).0
        (whole_frames channels st.carry round.samples).1 st h
        (whole_frames-IsCut channels st.carry round.samples positive)

  at_end-Ends :
      (all : List ℕ) (o : Option Text) (st : CaptureState R)
      → failure ≡ o
      → Carries channels all st
      → Ends (Faults disk failure) (Carries channels all) (at_end resampler disk channels o st)
  unfolding at_end
  at_end-Ends all none st e h = ends st h
  at_end-Ends all (some t) st e h = stops (io_failed t) st (inr (t, e, refl))

  capture_all-Ends :
      (rounds : List Round) (all : List ℕ) (st : CaptureState R)
      → Carries channels all st
      → Ends
          (Faults disk failure)
          (Carries channels (all ++ heard rounds))
          (capture_all resampler disk channels failure rounds st)
  unfolding capture_all
  capture_all-Ends [] all st h = at_end-Ends (all ++ []) failure st refl (rw (append-nil all) h)
  capture_all-Ends (round ∷ rounds) all st h = elim (Bool-cases (is_empty round.samples)) [
    | inl e ↦ rw e (ends st (rw (append-nil all) h))
    | inr e ↦ rw e (
        and_then-Ends (Faults disk failure) (Carries channels (all ++ round.samples)) _ _
          (capture_round-Ends all round st h)
          (λ t k.
            rw (← append_assoc all round.samples (heard rounds))
              (capture_all-Ends rounds (all ++ round.samples) t k)))
  ]

  -- The thread comes to an end on an empty sink with the channels of the capture, whatever the reads
  -- deliver, up to one of nothing, in pieces of any size, and whether or not a turn listens. Either it
  -- fails with the error of a use of the disk that failed or of the read that failed, or the samples
  -- in the sink are whole frames and the first samples that were read, what is kept back behind them
  -- is less than a frame, and the count of frames is that of the file.
  pub run_capture-Gives :
      (rounds : List Round) (path : Text) (rate : ℕ)
      → Gives (Faults disk failure) (Carries channels (heard rounds)) (
          run_capture resampler disk channels failure rounds
            (record { path = path; sample_rate = rate; channels = channels; samples = [] }))
  unfolding run_capture start_capture
  run_capture-Gives rounds path rate =
      let one : max channels 1 ≡ channels = omega arith in
      let none_yet : 0 ≡ 0 * channels = grind arith in
      let same : (channels == channels) ≡ true = (==_iff channels channels).1 refl in
      rw (one, same)
        (left_by-Gives (Faults disk failure) (Carries channels (heard rounds))
          (capture_all-Ends rounds [] _ (refl, positive, none_yet)))
