-- ===== src/Audio/Capture.antt =====
-- audio/record.rs: the capture thread of a DuplexSession. A round is a read of the capture, with what
-- the thread sees of the others in it; the resampler is an argument. The loudness and the drift that
-- the thread measures on the way, and warns of, are left out.
mod Cut
pub mod Whole
mod Examples
use dial_f.Prelude.{
  ℕ, ◌+◌, ◌*◌, ◌/◌, ◌%◌, max, Bool, true, false, Option, none, some, not, ◌&&◌, List, [], ◌∷◌, ◌++◌,
  length, take, drop, is_empty, if◌then◌else◌, ◌==◌,
}
use dial_f.Prelude.Outcome.{Result, ok, err, bail_if, ◌>>=◌, ◌>>◌}
use dial_f.Prelude.Text.{Text}
use dial_f.Audio.Record.{
  Disk, RecordError, mislabeled, io_failed, WavFileSink, Step, and_then, left_by, write, step_by,
}

-- Resampler16k
pub record Resampler (R : Type 0) : Type 0 where
  pub fresh : R
  pub process : List ℕ → R → List ℕ × R

-- What `capture.read` returns, whether a turn listens, and whether its channel has room.
pub record Round : Type 0 where
  pub samples : List ℕ
  pub vad_active : Bool
  pub vad_room : Bool

pub record CaptureState (R : Type 0) : Type 0 where
  pub rx : WavFileSink
  pub carry : List ℕ
  pub total : ℕ
  pub was_active : Bool
  pub resampler : R
  pub vad_frames : List (List ℕ)

-- The whole frames at hand, and the samples behind them.
unfoldable pub whole_frames : (channels : ℕ) → (carry samples : List ℕ) → List ℕ × List ℕ
whole_frames channels carry samples =
    if is_empty carry && (length samples % channels == 0)
    then (samples, carry)
    else let all = carry ++ samples in
      let whole : ℕ = length all / channels * channels in (take whole all, drop whole all)

module _ {R : Type 0} (resampler : Resampler R) (disk : Disk) (channels : ℕ) where
  -- `let _ = vad_tx.try_send(frame)`
  unfoldable pub try_send : (room : Bool) → List ℕ → CaptureState R → CaptureState R
  try_send room frame st =
      if not (is_empty frame) && room
      then record st { vad_frames = st.vad_frames ++ (frame ∷ []) }
      else st

  -- A turn starts with a fresh resampler.
  unfoldable pub renew : (active : Bool) → CaptureState R → CaptureState R
  renew active st =
      if active && not st.was_active then record st { resampler = resampler.fresh } else st

  unfoldable pub resample : List ℕ → (room : Bool) → CaptureState R → CaptureState R
  unfolding step_by try_send
  resample chunk room st =
      let (frame, r) = resampler.process (step_by channels 0 chunk) st.resampler in
      try_send room frame (record st { resampler = r })

  unfoldable pub listen : (active room : Bool) → List ℕ → CaptureState R → CaptureState R
  unfolding renew resample
  listen active room chunk st =
      let st1 : CaptureState R = record (renew active st) { was_active = active } in
      if active then resample chunk room st1 else st1

  unfoldable pub count_frames : List ℕ → CaptureState R → CaptureState R
  count_frames chunk st = record st { total = st.total + length chunk / channels }

  unfoldable pub after_write :
      Round → List ℕ → CaptureState R → Step WavFileSink → Step (CaptureState R)
  unfolding listen count_frames
  after_write round chunk st (err e, sink) = (err e, record st { rx = sink })
  after_write round chunk st (ok u, sink) = (
    ok tt,
    listen round.vad_active round.vad_room chunk (count_frames chunk (record st { rx = sink })),
  )

  unfoldable pub handle_chunk : Round → List ℕ × List ℕ → CaptureState R → Step (CaptureState R)
  unfolding write after_write
  handle_chunk round ([], carry) st = (ok tt, record st { carry = carry })
  handle_chunk round (s ∷ chunk, carry) st =
      after_write round (s ∷ chunk) (record st { carry = carry }) (write disk (s ∷ chunk) st.rx)

  unfoldable pub capture_round : Round → CaptureState R → Step (CaptureState R)
  unfolding whole_frames handle_chunk
  capture_round round st = handle_chunk round (whole_frames channels st.carry round.samples) st

  -- A read that fails, or the end of what the capture delivers.
  unfoldable pub at_end : (failure : Option Text) → CaptureState R → Step (CaptureState R)
  at_end none st = (ok tt, st)
  at_end (some e) st = (err (io_failed e), st)

  -- The loop, up to a read of nothing or the end of the rounds.
  unfoldable pub capture_all :
      (failure : Option Text) → List Round → CaptureState R → Step (CaptureState R)
  unfolding capture_round and_then at_end
  capture_all failure [] st = at_end failure st
  capture_all failure (round ∷ rounds) st =
      if is_empty round.samples
      then (ok tt, st)
      else and_then (capture_round round st) (λ st'. capture_all failure rounds st')

  -- DuplexSession::start: the state in which the thread starts.
  unfoldable pub start_capture : WavFileSink → Result RecordError (CaptureState R)
  start_capture rx = do
    bail_if (not (max rx.channels 1 == channels)) (mislabeled rx.channels channels)
    ok record {
      rx = rx;
      carry = [];
      total = 0;
      was_active = false;
      resampler = resampler.fresh;
      vad_frames = [];
    }

  -- The thread, from its start to what `finish` joins.
  unfoldable pub run_capture :
      (failure : Option Text) → List Round → WavFileSink → Result RecordError (CaptureState R)
  unfolding start_capture capture_all left_by
  run_capture failure rounds rx = do st ← start_capture rx; left_by (capture_all failure rounds st)
