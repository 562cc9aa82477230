-- ===== src/Audio/Turn/Ending.antt =====
-- audio/vad.rs: when a turn ends, whatever is heard.
use dial_f.Prelude.{
  ◌+◌, ◌≤◌, ◌≡◌, refl, ◌∙◌, inl, inr, Bool, true, false, Option, none, some, List, [], ◌∷◌, ◌++◌,
  Bool-cases, arith, if◌then◌else◌, length, leb,
}
use dial_f.Audio.Turn.{
  TurnConfig, TurnDetector, TurnEvent, speech_started, ended, EndReason, silence, timeout,
  end_of_stream, new, ms_to_hops, push, finish, push_waiting, push_speaking, check_timeout,
}
use dial_f.Audio.Turn.Fed.{add_event, feed, listen, push_finished, feed-ends}

-- A new detector has ended its turn when it has heard two hops and one more than its timeout lasts,
-- whatever they hold.
pub new-ends :
    (cfg : TurnConfig) (vs : List Bool)
    → ms_to_hops cfg.end_timeout_ms cfg.hop_size + 1 ≤ length vs
    → 2 ≤ length vs
    → (feed (new cfg) vs).1.finished ≡ true
unfolding new
new-ends cfg vs h p = feed-ends (new cfg) vs (omega arith) p

-- What the events of one turn can be: at most a start, and behind it the one end.
pub data Turn : Bool → List TurnEvent → Type 0 where
  over : {b : Bool} → (r : EndReason) → Turn b (ended r ∷ [])
  starts : {es : List TurnEvent} → Turn true es → Turn false (speech_started ∷ es)

-- What one hop can do.
data Hop (d : TurnDetector) : Option TurnEvent × TurnDetector → Type 0 where
  quiet : {d' : TurnDetector} → d'.finished ≡ false → d'.started ≡ d.started → Hop d (none, d')
  starting :
      {d' : TurnDetector}
      → d'.finished ≡ false
      → d'.started ≡ true
      → d.started ≡ false
      → Hop d (some speech_started, d')
  ending : {d' : TurnDetector} → (r : EndReason) → d'.finished ≡ true → Hop d (some (ended r), d')

check_timeout-Hop :
    (d e : TurnDetector) → e.finished ≡ false → e.started ≡ d.started → Hop d (check_timeout e)
unfolding check_timeout
check_timeout-Hop d e f s = elim (Bool-cases (leb e.timeout_hops e.elapsed_hops)) [
  | inl c ↦ rw c (ending timeout refl)
  | inr c ↦ rw c (quiet f s)
]

push_waiting-Hop :
    (d e : TurnDetector) (v : Bool)
    → e.finished ≡ false
    → e.started ≡ d.started
    → d.started ≡ false
    → Hop d (push_waiting e v)
unfolding push_waiting
push_waiting-Hop d e true f s n = elim (Bool-cases (leb e.onset_hops_needed (e.voiced_run + 1))) [
  | inl c ↦ rw c (starting f refl n)
  | inr c ↦ rw c (check_timeout-Hop d _ f s)
]
push_waiting-Hop d e false f s n = check_timeout-Hop d _ f s

push_speaking-Hop :
    (d e : TurnDetector) (v : Bool)
    → e.finished ≡ false
    → e.started ≡ d.started
    → Hop d (push_speaking e v)
unfolding push_speaking
push_speaking-Hop d e true f s = check_timeout-Hop d _ f s
push_speaking-Hop d e false f s =
    elim (Bool-cases (leb e.silence_hops_needed (e.silence_run + 1))) [
      | inl c ↦ rw c (ending silence refl)
      | inr c ↦ rw c (check_timeout-Hop d _ f s)
    ]

abbrev next : TurnDetector → TurnDetector
next d = record d { elapsed_hops = d.elapsed_hops + 1 }

if-Hop :
    {d : TurnDetector} {x y : Option TurnEvent × TurnDetector} (b : Bool)
    → (b ≡ true → Hop d x)
    → (b ≡ false → Hop d y)
    → Hop d (if b then x else y)
if-Hop true h k = h refl
if-Hop false h k = k refl

push-Hop : (d : TurnDetector) (v : Bool) → d.finished ≡ false → Hop d (push d v)
unfolding push
push-Hop d v f =
    if-Hop d.finished (λ t. cc)
      (λ _.
        if-Hop d.started (λ _. push_speaking-Hop d (next d) v f refl)
          (λ s. push_waiting-Hop d (next d) v f refl s))

add_event-append :
    (e : Option TurnEvent) (es fs : List TurnEvent) → add_event e es ++ fs ≡ add_event e (es ++ fs)
unfolding add_event
add_event-append none es fs = refl
add_event-append (some e) es fs = refl

listen-cons :
    (d : TurnDetector) (v : Bool) (vs : List Bool)
    → listen d (v ∷ vs) ≡ add_event (push d v).0 (listen (push d v).1 vs)
unfolding listen
listen-cons d v vs = add_event-append (push d v).0 _ _

listen_finished : (d : TurnDetector) (vs : List Bool) → d.finished ≡ true → listen d vs ≡ []
unfolding listen
listen_finished d [] f = unfold finish in rw f refl
listen_finished d (v ∷ vs) f =
    listen-cons d v vs ∙ rw (push_finished d v f) (listen_finished d vs f)

-- What a hop brings, and what is still to come behind it.
Hop-Turn :
    {d : TurnDetector} (r : Option TurnEvent × TurnDetector) (vs : List Bool)
    → Hop d r
    → (r.1.finished ≡ false → Turn r.1.started (listen r.1 vs))
    → Turn d.started (add_event r.0 (listen r.1 vs))
unfolding add_event
Hop-Turn (e, d') vs (quiet f s) later = rw⁻¹ s (later f)
Hop-Turn (e, d') vs (starting f s n) later = rw n (starts (rw⁻¹ s (later f)))
Hop-Turn (e, d') vs (ending r f) later = rw (listen_finished d' vs f) (over r)

listen-Turn :
    (d : TurnDetector) (vs : List Bool) → d.finished ≡ false → Turn d.started (listen d vs)
unfolding listen
listen-Turn d [] f = unfold finish in rw f (over end_of_stream)
listen-Turn d (v ∷ vs) f =
    rw (listen-cons d v vs)
      (Hop-Turn (push d v) vs (push-Hop d v f) (λ g. listen-Turn (push d v).1 vs g))

-- Whatever a stream holds, a new detector reports one end for it, and before it at most one start.
pub listen-new-Turn : (cfg : TurnConfig) (vs : List Bool) → Turn false (listen (new cfg) vs)
unfolding new
listen-new-Turn cfg vs = listen-Turn (new cfg) vs refl
