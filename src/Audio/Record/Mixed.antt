-- ===== src/Audio/Record/Mixed.antt =====
-- audio/record.rs: what files are left, and what the mix of two legs holds.
use dial_f.Prelude.{
  ℕ, none, some, ◌%◌, max, Bool, true, false, List, [], ◌∷◌, length, ◌≡◌, refl, ap, arith,
}
use dial_f.Prelude.Text.{Text, bytes}
use dial_f.Audio.Record.{
  Disk, Deed, WavFileSink, create, finalize, step_by, frame, mixed, mix_wavs, mix_legs, leg_path,
  record_rate,
}
use dial_f.Audio.Record.Blamed.{
  Yields, yields, >>=-Yields, context-Yields, left_by-Yields, attempt-Yields,
}
use dial_f.Audio.Record.Padded.{write-Leaves}
use dial_f.Audio.Record.Expected.{both, leg, mix_file, mix_of}

step_by_one : (xs : List ℕ) → step_by 1 0 xs ≡ xs
unfolding step_by
step_by_one [] = refl
step_by_one (x ∷ xs) = ap (λ ys. x ∷ ys) (step_by_one xs)

mixed-both :
    (tx_left : Bool) (ts rs : List ℕ)
    → length ts ≡ length rs
    → mixed tx_left ts rs ≡ both tx_left ts rs
unfolding mixed frame
mixed-both tx_left [] [] h = refl
mixed-both tx_left [] (r ∷ rs) h = ground arith
mixed-both tx_left (t ∷ ts) [] h = ground arith
mixed-both true (t ∷ ts) (r ∷ rs) h = ap (λ xs. t ∷ r ∷ xs) (mixed-both true ts rs (omega arith))
mixed-both false (t ∷ ts) (r ∷ rs) h = ap (λ xs. r ∷ t ∷ xs) (mixed-both false ts rs (omega arith))

both-even : (tx_left : Bool) (ts rs : List ℕ) → length (both tx_left ts rs) % 2 ≡ 0
both-even tx_left [] rs = omega arith
both-even tx_left (t ∷ ts) [] = omega arith
both-even true (t ∷ ts) (r ∷ rs) = omega (arith, both-even true ts rs)
both-even false (t ∷ ts) (r ∷ rs) = omega (arith, both-even false ts rs)

module _ (disk : Disk) where
  pub create-Yields :
      (path : Text) (rate channels : ℕ)
      → Yields disk
          (record { path = path; sample_rate = rate; channels = max channels 1; samples = [] })
          (create disk path rate channels)
  unfolding create
  create-Yields path rate channels =
      >>=-Yields disk _ tt _ (attempt-Yields disk Deed.creating path) (yields _ refl)

  -- A sink of whole frames can be finalized.
  pub finalize-Yields :
      (sink : WavFileSink)
      → length sink.samples % sink.channels ≡ 0
      → Yields disk sink (finalize disk sink)
  unfolding finalize
  finalize-Yields sink h =
      rw h (
        >>=-Yields disk _ tt sink (attempt-Yields disk Deed.finalizing sink.path)
          (yields sink refl))

  module _ (dir session : Text) (mix tx_left : Bool) where
    mix_wavs-Yields :
        (xs ys : List ℕ) (tx_path rx_path out : Text)
        → length ys ≡ length xs
        → Yields disk
            (mix_file out (both tx_left ys xs))
            (mix_wavs disk (leg tx_path ys) (leg rx_path xs) out tx_left)
    unfolding mix_wavs
    mix_wavs-Yields xs ys tx_path rx_path out h =
        let blank : WavFileSink = mix_file out [] in
        let full : WavFileSink = mix_file out (both tx_left ys xs) in
        rw (step_by_one xs, step_by_one ys, mixed-both tx_left ys xs h)
          (>>=-Yields disk _ tt full
            (context-Yields disk _ (attempt-Yields disk Deed.reading tx_path))
            (>>=-Yields disk _ tt full
              (context-Yields disk _ (attempt-Yields disk Deed.reading rx_path))
              (>>=-Yields disk _ blank full
                (context-Yields disk _ (create-Yields out record_rate 2))
                (>>=-Yields disk _ full full
                  (left_by-Yields disk (write-Leaves disk (both tx_left ys xs) blank))
                  (context-Yields disk _ (finalize-Yields full (both-even tx_left ys xs)))))))

    -- Equally long legs are mixed frame by frame.
    pub mix_legs-Yields :
        (m : Bool) (xs ys : List ℕ)
        → length ys ≡ length xs
        → Yields disk (mix_of dir session mix tx_left m xs ys) (
            mix_legs disk m
              (leg (leg_path dir session (bytes "-tx.wav")) ys)
              (leg (leg_path dir session (bytes "-rx.wav")) xs)
              (leg_path dir session (bytes "-mix.wav"))
              tx_left)
    unfolding mix_legs
    mix_legs-Yields false xs ys h = yields none refl
    mix_legs-Yields true xs ys h =
        let out : Text = leg_path dir session (bytes "-mix.wav") in
        let full : WavFileSink = mix_file out (both tx_left ys xs) in
        >>=-Yields disk _ full (some full)
          (context-Yields disk _ (
            mix_wavs-Yields xs ys (leg_path dir session (bytes "-tx.wav"))
              (leg_path dir session (bytes "-rx.wav")) out h))
          (yields _ refl)
