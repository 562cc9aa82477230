-- ===== src/Audio/Turn/Hearing.antt =====
-- audio/vad.rs: what a detector's counters say of the hops it heard. A history lists its hops newest
-- first.
use dial_f.Prelude.{
  ℕ, zero, suc, ◌+◌, ◌-◌, ◌*◌, ◌/◌, ◌%◌, ◌≤◌, ◌<◌, ◌≡◌, Bool, true, false, not, ◌&&◌, Option, none,
  some, List, [], ◌∷◌, arith, if◌then◌else◌, length, leb, max, ◌==◌,
}
use native.Mathlib.Omega.{div_any}
use native.Mathlib.Nat.{mod-lt, mul_comm}
use dial_f.Audio.Turn.{
  TurnConfig, TurnDetector, TurnEvent, speech_started, ended, silence, timeout, new, push,
  ms_to_hops, push_waiting, push_speaking, check_timeout,
}

-- The detector behind a history.
unfoldable pub heard : TurnConfig → List Bool → TurnDetector
unfolding new
heard cfg [] = new cfg
heard cfg (v ∷ h) = (push (heard cfg h) v).1

-- How many of the newest hops are voiced, and how many are not, in a row.
pub voiced_behind : List Bool → ℕ
voiced_behind [] = 0
voiced_behind (true ∷ h) = voiced_behind h + 1
voiced_behind (false ∷ h) = 0

pub silent_behind : List Bool → ℕ
silent_behind [] = 0
silent_behind (true ∷ h) = 0
silent_behind (false ∷ h) = silent_behind h + 1

-- The durations of the configuration, in hops.
pub onset_of : TurnConfig → ℕ
onset_of cfg = max (ms_to_hops cfg.onset_duration_ms cfg.hop_size) 1

pub silence_of : TurnConfig → ℕ
silence_of cfg = ms_to_hops cfg.silence_duration_ms cfg.hop_size

pub timeout_of : TurnConfig → ℕ
timeout_of cfg = ms_to_hops cfg.end_timeout_ms cfg.hop_size

-- The event that a turn brings with its newest hop, when speech has started or not.
pub due : TurnConfig → Bool → List Bool → Option TurnEvent
due cfg started [] = none
due cfg false (v ∷ h) =
    if v && leb (onset_of cfg) (voiced_behind (v ∷ h))
    then some speech_started
    else (if leb (timeout_of cfg) (length (v ∷ h)) then some (ended timeout) else none)
due cfg true (v ∷ h) =
    if not v && leb (silence_of cfg) (silent_behind (v ∷ h))
    then some (ended silence)
    else (if leb (timeout_of cfg) (length (v ∷ h)) then some (ended timeout) else none)

-- What the fields of a detector whose turn is open say of the history.
record Tracks (cfg : TurnConfig) (h : List Bool) (d : TurnDetector) : Type 0 where
  onset : d.onset_hops_needed ≡ onset_of cfg
  silence_needed : d.silence_hops_needed ≡ silence_of cfg
  timeout_needed : d.timeout_hops ≡ timeout_of cfg
  elapsed : d.finished ≡ false → d.elapsed_hops ≡ length h
  voiced : d.finished ≡ false → d.started ≡ false → d.voiced_run ≡ voiced_behind h
  silent : d.finished ≡ false → d.started ≡ true → d.silence_run ≡ silent_behind h
  fresh : d.finished ≡ false → d.started ≡ false → d.silence_run ≡ 0

new-Tracks : (cfg : TurnConfig) → Tracks cfg [] (new cfg)
unfolding new voiced_behind onset_of silence_of timeout_of
new-Tracks cfg = ground arith

push-Tracks :
    (cfg : TurnConfig) (h : List Bool) (d : TurnDetector) (v : Bool)
    → Tracks cfg h d
    → Tracks cfg (v ∷ h) (push d v).1
unfolding push push_waiting push_speaking check_timeout voiced_behind silent_behind
push-Tracks cfg h d true t = ground arith
push-Tracks cfg h d false t = ground arith

heard-Tracks : (cfg : TurnConfig) (h : List Bool) → Tracks cfg h (heard cfg h)
unfolding heard
heard-Tracks cfg [] = new-Tracks cfg
heard-Tracks cfg (v ∷ h) = push-Tracks cfg h (heard cfg h) v (heard-Tracks cfg h)

push-due :
    (cfg : TurnConfig) (h : List Bool) (d : TurnDetector) (v : Bool)
    → Tracks cfg h d
    → d.finished ≡ false
    → (push d v).0 ≡ due cfg d.started (v ∷ h)
unfolding push push_waiting push_speaking check_timeout voiced_behind silent_behind due
push-due cfg h d true t f = ground arith
push-due cfg h d false t f = ground arith

-- As long as the turn is open, the next hop brings what the history says: the start when enough
-- hops in a row are voiced, the end when, after the start, enough hops in a row are not, else the
-- timeout when enough hops are heard, and otherwise nothing.
pub push-heard :
    (cfg : TurnConfig) (h : List Bool) (v : Bool)
    → (heard cfg h).finished ≡ false
    → (push (heard cfg h) v).0 ≡ due cfg (heard cfg h).started (v ∷ h)
push-heard cfg h v f = push-due cfg h (heard cfg h) v (heard-Tracks cfg h) f

-- A quotient that is rounded up.
div_up : (a k : ℕ) → 1 ≤ k → (a ≤ (a + k - 1) / k * k) × ((a + k - 1) / k * k < a + k)
div_up a k p =
    let q = (a + k - 1) / k in
    let e : k * q + (a + k - 1) % k ≡ a + k - 1 = div_any (a + k - 1) k in
    let r : (a + k - 1) % k < k = mod-lt _ p in omega (arith, mul_comm k q)

-- A duration takes the fewest hops that last as long: one fewer is shorter.
pub ms_to_hops_lem :
    (ms hop : ℕ)
    → 1 ≤ hop
    → (ms * 16000 ≤ ms_to_hops ms hop * (hop * 1000))
      × (ms_to_hops ms hop * (hop * 1000) < ms * 16000 + hop * 1000)
unfolding ms_to_hops
ms_to_hops_lem ms zero p = absurd (omega arith)
ms_to_hops_lem ms (suc hop) p =
    let e : suc hop == 0 ≡ false = ground arith in
    rw e (div_up (ms * 16000) (suc hop * 1000) (omega arith))
