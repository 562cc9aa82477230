-- ===== src/Audio/Record/Examples.antt =====
-- audio/record.rs on short recordings.
use dial_f.Prelude.{zero, suc, ◌≡◌, refl, true, Option, none, some, List, [], ◌∷◌}
use dial_f.Prelude.Outcome.{err}
use dial_f.Prelude.Text.{Text, bytes}
use dial_f.Audio.Record.{
  Disk, Deed, io_failed, new_recorder, attempt, create, push_rx, write, write_sample, and_then,
  rx_written, pad_to, pad_rounds, grown, push_tx_at, tx_padded, tx_written, left_by,
}
use dial_f.Audio.Record.Blamed.{Yields}
use dial_f.Audio.Record.Expected.{Push, rx, tx_at, record_all, captured, played, recording}
use dial_f.Audio.Record.Legs.{record_all-Yields}

-- Three frames are captured; two prompts are played, the second one behind the end of rx.
abbrev a_call : List Push
a_call = rx (7 ∷ 8 ∷ []) ∷ tx_at 1 (5 ∷ []) ∷ rx (9 ∷ []) ∷ tx_at 3 (6 ∷ 6 ∷ []) ∷ []

a_call-captured : captured a_call ≡ 7 ∷ 8 ∷ 9 ∷ []
a_call-captured = refl

a_call-played : played 0 a_call ≡ 0 ∷ 5 ∷ 0 ∷ 6 ∷ 6 ∷ []
a_call-played = refl

abbrev fails_at : Deed → Text → Option Text
fails_at (Deed.writing (suc (suc zero))) path = some (bytes "full")
fails_at d path = none

abbrev full_disk : Disk
full_disk = record { fault = fails_at }

record_all-Yields_example :
    Yields full_disk
      (recording (bytes "/rec") (bytes "a") true true (captured a_call) (played 0 a_call))
      (record_all full_disk (bytes "/rec") (bytes "a") true true a_call)
record_all-Yields_example = record_all-Yields (bytes "/rec") (bytes "a") true true full_disk a_call

-- A sample that cannot be written ends the recording.
full_disk-a_call :
    record_all full_disk (bytes "/rec") (bytes "a") true true a_call
    ≡ err (io_failed (bytes "full"))
unfolding new_recorder attempt create push_rx write write_sample and_then rx_written pad_to
    pad_rounds grown push_tx_at tx_padded tx_written left_by
full_disk-a_call = refl
