-- ===== src/Audio/Record.antt =====
-- audio/record.rs and the WavFileSink of audio/backend.rs: the two legs of a recording and their
-- mix. A sample is the bit pattern of an `i16`. The disk is an argument that says which of its uses
-- fail; hound's writer is the list of the samples that were written.
pub mod Blamed
pub mod Padded
pub mod Expected
pub mod Mixed
pub mod Legs
mod Examples
use dial_f.Prelude.{
  ℕ, zero, suc, ◌+◌, ◌-◌, ◌*◌, ◌/◌, ◌%◌, max, min, Bool, true, false, Option, none, some, List, [],
  ◌∷◌, ◌++◌, length, if◌then◌else◌, leb, ◌==◌,
}
use dial_f.Prelude.Outcome.{Result, ok, err, bail_if, ◌>>=◌, ◌>>◌}
use dial_f.Prelude.Text.{Text, bytes}

-- A use of the disk: the number of a sample is how many stand before it.
pub data Deed : Type 0 where
  making_dir creating finalizing reading : Deed
  writing : ℕ → Deed

-- Whether a use fails at a path.
pub record Disk : Type 0 where
  pub fault : Deed → Text → Option Text

pub data RecordError : Type 0 where
  io_failed : Text → RecordError
  with_context : Text → RecordError → RecordError
  different_rates : (tx rx : ℕ) → RecordError
  mislabeled : (sink capture : ℕ) → RecordError
  unfinished_frame out_of_rounds : RecordError

-- WavFileSink, and the file that it leaves.
pub record WavFileSink : Type 0 where
  pub path : Text
  pub sample_rate : ℕ
  pub channels : ℕ
  pub samples : List ℕ

pub record RecordOutput : Type 0 where
  pub rx : WavFileSink
  pub tx : WavFileSink
  pub mix : Option WavFileSink

abbrev pub context : {A : Type 0} → Text → Result RecordError A → Result RecordError A
context what (ok a) = ok a
context what (err e) = err (with_context what e)

unfoldable pub attempt : Option Text → Result RecordError (Unit {0})
attempt none = ok tt
attempt (some e) = err (io_failed e)

-- A step on a sink or a recorder: its result, and the state it leaves.
abbrev pub Step : Type 0 → Type 0
Step S = Result RecordError (Unit {0}) × S

unfoldable pub and_then : {S : Type 0} → Step S → (S → Step S) → Step S
and_then (ok u, s) next = next s
and_then (err e, s) next = (err e, s)

-- What is left when the state is consumed.
unfoldable pub left_by : {S : Type 0} → Step S → Result RecordError S
left_by (ok u, s) = ok s
left_by (err e, s) = err e

abbrev pub zeros : ℕ → List ℕ
zeros zero = []
zeros (suc n) = 0 ∷ zeros n

module _ (disk : Disk) where
  -- WavFileSink::create
  unfoldable pub create : Text → (sample_rate channels : ℕ) → Result RecordError WavFileSink
  unfolding attempt
  create path rate channels = do
    attempt (disk.fault creating path)
    ok record { path = path; sample_rate = rate; channels = max channels 1; samples = [] }

  unfoldable pub write_sample : Option Text → ℕ → WavFileSink → Step WavFileSink
  unfolding attempt
  write_sample none s sink = (ok tt, record sink { samples = sink.samples ++ (s ∷ []) })
  write_sample (some e) s sink = (err (io_failed e), sink)

  -- PlaybackSink::write
  unfoldable pub write : List ℕ → WavFileSink → Step WavFileSink
  unfolding write_sample and_then
  write [] sink = (ok tt, sink)
  write (s ∷ ss) sink =
      and_then (write_sample (disk.fault (writing (length sink.samples)) sink.path) s sink)
        (λ sink'. write ss sink')

  -- A file ends with a whole frame.
  unfoldable pub finalize : WavFileSink → Result RecordError WavFileSink
  unfolding attempt
  finalize sink = do
    attempt (disk.fault finalizing sink.path)
    bail_if (leb 1 (length sink.samples % sink.channels)) unfinished_frame
    ok sink

  -- The loop of `pad_to`; `scratch` is the length of the buffer of zeros.
  unfoldable pub pad_rounds : ℕ → (scratch remaining : ℕ) → WavFileSink → Step WavFileSink
  unfolding write and_then
  pad_rounds zero scratch remaining sink = (err out_of_rounds, sink)
  pad_rounds (suc fuel) scratch zero sink = (ok tt, sink)
  pad_rounds (suc fuel) scratch (suc n) sink =
      let chunk : ℕ = min (suc n) scratch in
      and_then (write (zeros chunk) sink) (λ sink'. pad_rounds fuel scratch (suc n - chunk) sink')

  unfoldable pub grown : ℕ → ℕ
  grown zero = 4096
  grown (suc n) = suc n

  unfoldable pub pad_to : (have want scratch : ℕ) → WavFileSink → Step WavFileSink
  unfolding pad_rounds grown
  pad_to have want scratch sink =
      if leb want have
      then (ok tt, sink)
      else pad_rounds ((want - have) * max sink.channels 1 + 1) (grown scratch)
          ((want - have) * max sink.channels 1) sink

-- Every n-th sample, `skip` samples on.
unfoldable pub step_by : ℕ → (skip : ℕ) → List ℕ → List ℕ
step_by n skip [] = []
step_by n zero (x ∷ xs) = x ∷ step_by n (n - 1) xs
step_by n (suc skip) (x ∷ xs) = step_by n skip xs

unfoldable pub frame : (tx_left : Bool) → (t r : ℕ) → List ℕ
frame true t r = t ∷ r ∷ []
frame false t r = r ∷ t ∷ []

-- The samples that the loop of `mix_wavs` writes.
unfoldable pub mixed : (tx_left : Bool) → (tx rx : List ℕ) → List ℕ
unfolding frame
mixed tx_left [] [] = []
mixed tx_left (t ∷ ts) [] = frame tx_left t 0 ++ mixed tx_left ts []
mixed tx_left [] (r ∷ rs) = frame tx_left 0 r ++ mixed tx_left [] rs
mixed tx_left (t ∷ ts) (r ∷ rs) = frame tx_left t r ++ mixed tx_left ts rs

-- DuplexRecorder
pub record DuplexRecorder : Type 0 where
  pub rx : WavFileSink
  pub tx : WavFileSink
  pub dir : Text
  pub session : Text
  pub mix : Bool
  pub mix_tx_left : Bool
  pub rx_len : ℕ
  pub tx_len : ℕ
  pub silence : ℕ

abbrev pub record_rate : ℕ
record_rate = 16000

abbrev pub leg_path : (dir session leg : Text) → Text
leg_path dir session leg = dir ++ (bytes "/" ++ (session ++ leg))

module _ (disk : Disk) where
  unfoldable pub mix_wavs :
      (tx rx : WavFileSink) → Text → (tx_left : Bool) → Result RecordError WavFileSink
  unfolding attempt create write left_by finalize step_by mixed
  mix_wavs tx rx out tx_left = do
    context (bytes "open " ++ tx.path) (attempt (disk.fault reading tx.path))
    context (bytes "open " ++ rx.path) (attempt (disk.fault reading rx.path))
    bail_if (if tx.sample_rate == rx.sample_rate then false else true)
        (different_rates tx.sample_rate rx.sample_rate)
    let tx_mono = step_by (max tx.channels 1) 0 tx.samples
    let rx_mono = step_by (max rx.channels 1) 0 rx.samples
    w ← context (bytes "create " ++ out) (create disk out rx.sample_rate 2)
    w' ← left_by (write disk (mixed tx_left tx_mono rx_mono) w)
    context (bytes "finalize mix.wav") (finalize disk w')

  -- DuplexRecorder::new
  unfoldable pub new_recorder :
      (dir session : Text) → (mix mix_tx_left : Bool) → Result RecordError DuplexRecorder
  unfolding attempt create
  new_recorder dir session mix mix_tx_left = do
    context (bytes "create record dir " ++ dir) (attempt (disk.fault making_dir dir))
    rx ← create disk (leg_path dir session (bytes "-rx.wav")) record_rate 1
    tx ← create disk (leg_path dir session (bytes "-tx.wav")) record_rate 1
    ok record {
      rx = rx;
      tx = tx;
      dir = dir;
      session = session;
      mix = mix;
      mix_tx_left = mix_tx_left;
      rx_len = 0;
      tx_len = 0;
      silence = 4096;
    }

  unfoldable pub rx_written : ℕ → DuplexRecorder → Step WavFileSink → Step DuplexRecorder
  rx_written n r (err e, sink) = (err e, record r { rx = sink })
  rx_written n r (ok u, sink) =
      (ok tt, record r { rx = sink; rx_len = r.rx_len + n / max sink.channels 1 })

  unfoldable pub push_rx : List ℕ → DuplexRecorder → Step DuplexRecorder
  unfolding write rx_written
  push_rx samples r = rx_written (length samples) r (write disk samples r.rx)

  unfoldable pub tx_written : ℕ → DuplexRecorder → Step WavFileSink → Step DuplexRecorder
  tx_written n r (err e, sink) = (err e, record r { tx = sink })
  tx_written n r (ok u, sink) =
      (ok tt, record r { tx = sink; tx_len = r.tx_len + n / max sink.channels 1 })

  unfoldable pub tx_padded : ℕ → List ℕ → DuplexRecorder → Step WavFileSink → Step DuplexRecorder
  unfolding write tx_written
  tx_padded offset samples r (err e, sink) = (err e, record r { tx = sink })
  tx_padded offset samples r (ok u, sink) =
      tx_written (length samples) (record r { tx_len = max r.tx_len offset })
        (write disk samples sink)

  unfoldable pub push_tx_at : ℕ → List ℕ → DuplexRecorder → Step DuplexRecorder
  unfolding pad_to tx_padded
  push_tx_at offset samples r =
      tx_padded offset samples r (pad_to disk r.tx_len offset r.silence r.tx)

  unfoldable pub mix_legs :
      Bool → (tx rx : WavFileSink) → Text → Bool → Result RecordError (Option WavFileSink)
  unfolding mix_wavs
  mix_legs false tx rx out tx_left = ok none
  mix_legs true tx rx out tx_left = do
    m ← context (bytes "write mix.wav") (mix_wavs tx rx out tx_left)
    ok (some m)

  unfoldable pub finish : DuplexRecorder → Result RecordError RecordOutput
  unfolding pad_to left_by finalize mix_legs
  finish r = do
    let total = max r.rx_len r.tx_len
    rx ← left_by (pad_to disk r.rx_len total r.silence r.rx)
    tx ← left_by (pad_to disk r.tx_len total r.silence r.tx)
    rx' ← context (bytes "finalize rx.wav") (finalize disk rx)
    tx' ← context (bytes "finalize tx.wav") (finalize disk tx)
    m ← mix_legs r.mix tx' rx' (leg_path r.dir r.session (bytes "-mix.wav")) r.mix_tx_left
    ok record { rx = rx'; tx = tx'; mix = m }
