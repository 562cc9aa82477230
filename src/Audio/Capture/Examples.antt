-- ===== src/Audio/Capture/Examples.antt =====
-- audio/record.rs: a stereo capture that is read in odd pieces.
use dial_f.Prelude.{none, ◌≡◌, refl, true, false, List, [], ◌∷◌, arith}
use dial_f.Prelude.Outcome.{ok}
use dial_f.Prelude.Text.{bytes}
use dial_f.Audio.Record.{Disk, write, write_sample, and_then, left_by, step_by}
use dial_f.Audio.Record.Blamed.{Gives}
use dial_f.Audio.Capture.{
  Resampler, Round, run_capture, start_capture, capture_all, capture_round, whole_frames,
  handle_chunk, after_write, listen, renew, resample, try_send, count_frames,
}
use dial_f.Audio.Capture.Whole.{Carries, Faults, run_capture-Gives}

abbrev passing : Resampler (Unit {0})
passing = record { fresh = tt; process = λ xs r. (xs, r) }

abbrev odd_reads : List Round
odd_reads =
    record { samples = 1 ∷ 2 ∷ 3 ∷ []; vad_active = false; vad_room = true }
    ∷ record { samples = 4 ∷ 5 ∷ []; vad_active = true; vad_room = true }
    ∷ []

abbrev sound_disk : Disk
sound_disk = record { fault = λ d path. none }

run_capture-Gives_example : Gives (Faults sound_disk none) (Carries 2 (1 ∷ 2 ∷ 3 ∷ 4 ∷ 5 ∷ [])) (
    run_capture passing sound_disk 2 none odd_reads
      (record { path = bytes "/rec/a-rx.wav"; sample_rate = 48000; channels = 2; samples = [] }))
run_capture-Gives_example =
    run_capture-Gives passing sound_disk none 2 (omega arith) odd_reads (bytes "/rec/a-rx.wav")
      48000

-- The frames are 1 2 and 3 4; the second one is heard by the turn.
odd_reads-sent :
    run_capture passing sound_disk 2 none odd_reads
      (record { path = bytes "a"; sample_rate = 48000; channels = 2; samples = [] })
    ≡ ok record {
      rx = record {
        path = bytes "a";
        sample_rate = 48000;
        channels = 2;
        samples = 1 ∷ 2 ∷ 3 ∷ 4 ∷ [];
      };
      carry = 5 ∷ [];
      total = 2;
      was_active = true;
      resampler = tt;
      vad_frames = (3 ∷ []) ∷ [];
    }
unfolding run_capture start_capture capture_all capture_round whole_frames handle_chunk after_write
    listen renew resample try_send count_frames write write_sample and_then left_by step_by
odd_reads-sent = refl
