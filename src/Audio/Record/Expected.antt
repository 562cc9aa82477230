-- ===== src/Audio/Record/Expected.antt =====
-- audio/record.rs: a recording from its start to its end, and what it should hold.
use dial_f.Prelude.{
  ℕ, ◌+◌, ◌-◌, max, Bool, true, false, Option, none, some, List, [], ◌∷◌, ◌++◌, length,
}
use dial_f.Prelude.Outcome.{Result, ok, ◌>>=◌}
use dial_f.Prelude.Text.{Text, bytes}
use dial_f.Audio.Record.{
  Disk, RecordError, WavFileSink, RecordOutput, Step, DuplexRecorder, and_then, left_by, zeros,
  new_recorder, push_rx, push_tx_at, finish, leg_path, record_rate,
}

-- What the capture delivers, and what is played.
pub data Push : Type 0 where
  rx : List ℕ → Push
  tx_at : (offset : ℕ) → List ℕ → Push

module _ (disk : Disk) where
  abbrev pub push : Push → DuplexRecorder → Step DuplexRecorder
  push (rx samples) r = push_rx disk samples r
  push (tx_at offset samples) r = push_tx_at disk offset samples r

  abbrev pub push_all : List Push → DuplexRecorder → Step DuplexRecorder
  push_all [] r = (ok tt, r)
  push_all (p ∷ ps) r = and_then (push p r) (λ r'. push_all ps r')

  -- A recording from its start to its end.
  abbrev pub record_all :
      (dir session : Text) → (mix tx_left : Bool) → List Push → Result RecordError RecordOutput
  record_all dir session mix tx_left ps = do
    r ← new_recorder disk dir session mix tx_left
    r' ← left_by (push_all ps r)
    finish disk r'

-- The samples that were captured.
abbrev pub captured : List Push → List ℕ
captured [] = []
captured (rx samples ∷ ps) = samples ++ captured ps
captured (tx_at offset samples ∷ ps) = captured ps

-- The samples that were played, each prompt at its offset or behind the prompt before it, after
-- a leg of `n` samples.
abbrev pub played : ℕ → List Push → List ℕ
played n [] = []
played n (rx samples ∷ ps) = played n ps
played n (tx_at offset samples ∷ ps) =
    zeros (offset - n) ++ (samples ++ played (max n offset + length samples) ps)

-- A leg that lasts as long as the other one.
abbrev pub as_long : List ℕ → List ℕ → List ℕ
as_long xs ys = xs ++ zeros (length ys - length xs)

-- Two legs, frame by frame.
abbrev pub both : Bool → List ℕ → List ℕ → List ℕ
both tx_left [] rs = []
both tx_left (t ∷ ts) [] = []
both true (t ∷ ts) (r ∷ rs) = t ∷ r ∷ both true ts rs
both false (t ∷ ts) (r ∷ rs) = r ∷ t ∷ both false ts rs

-- A mono leg.
abbrev pub leg : Text → List ℕ → WavFileSink
leg path xs = record { path = path; sample_rate = record_rate; channels = 1; samples = xs }

abbrev pub mix_file : Text → List ℕ → WavFileSink
mix_file path xs = record { path = path; sample_rate = record_rate; channels = 2; samples = xs }

module _ (dir session : Text) (mix tx_left : Bool) where
  -- The mix of two legs.
  abbrev pub mix_of : Bool → List ℕ → List ℕ → Option WavFileSink
  mix_of false xs ys = none
  mix_of true xs ys = some (mix_file (leg_path dir session (bytes "-mix.wav")) (both tx_left ys xs))

  abbrev pub recording : List ℕ → List ℕ → RecordOutput
  recording xs ys = record {
    rx = leg (leg_path dir session (bytes "-rx.wav")) (as_long xs ys);
    tx = leg (leg_path dir session (bytes "-tx.wav")) (as_long ys xs);
    mix = mix_of mix (as_long xs ys) (as_long ys xs);
  }
