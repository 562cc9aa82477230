-- ===== src/Audio/Turn/Fed.antt =====
-- audio/vad.rs: the detector on a stream of hops.
use dial_f.Prelude.{
  ◌+◌, ◌≤◌, ◌≡◌, refl, ap, ◌∙◌, ◌⊎◌, inl, inr, Bool, true, false, Option, none, some, List, [], ◌∷◌,
  ◌++◌, Bool-cases, arith, length, leb, leb→le,
}
use dial_f.Audio.Turn.{
  TurnDetector, TurnEvent, push, finish, push_waiting, push_speaking, check_timeout,
}

-- The event of a hop in front of those that follow.
unfoldable pub add_event : Option TurnEvent → List TurnEvent → List TurnEvent
add_event none es = es
add_event (some e) es = e ∷ es

-- The events of a list of hops, and the detector behind them.
unfoldable pub feed : TurnDetector → List Bool → List TurnEvent × TurnDetector
unfolding add_event
feed d [] = ([], d)
feed d (v ∷ vs) = let (e, d') = push d v in let rest = feed d' vs in (add_event e rest.0, rest.1)

-- The events of a whole stream: its hops, then its end.
unfoldable pub listen : TurnDetector → List Bool → List TurnEvent
unfolding feed
listen d vs = (feed d vs).0 ++ add_event (finish (feed d vs).1).0 []

pub push_finished : (d : TurnDetector) (v : Bool) → d.finished ≡ true → push d v ≡ (none, d)
unfolding push
push_finished d v h = rw h refl

push-elapsed :
    (d : TurnDetector) (v : Bool)
    → d.finished ≡ false
    → (push d v).1.elapsed_hops ≡ d.elapsed_hops + 1
unfolding push push_waiting push_speaking check_timeout
push-elapsed d v h = ground arith

push-timeout_hops : (d : TurnDetector) (v : Bool) → (push d v).1.timeout_hops ≡ d.timeout_hops
unfolding push push_waiting push_speaking check_timeout
push-timeout_hops d v = ground arith

-- A detector that has started ends with the hop that reaches the timeout.
push-capped :
    (d : TurnDetector) (v : Bool)
    → d.started ≡ true
    → d.timeout_hops ≤ d.elapsed_hops + 1
    → (push d v).1.finished ≡ true
unfolding push push_waiting push_speaking check_timeout
push-capped d v s h = ground arith

push-settled :
    (d : TurnDetector) (v : Bool)
    → d.timeout_hops ≤ d.elapsed_hops + 1
    → ((push d v).1.finished ≡ true) ⊎ ((push d v).1.started ≡ true)
unfolding push push_waiting push_speaking check_timeout
push-settled d v h = ground arith

feed_finished :
    (d : TurnDetector) (vs : List Bool) → d.finished ≡ true → (feed d vs).1.finished ≡ true
unfolding feed
feed_finished d [] h = h
feed_finished d (v ∷ vs) h =
    feed_finished (push d v).1 vs (ap (λ r. r.1.finished) (push_finished d v h) ∙ h)

push-started : (d : TurnDetector) (v : Bool) → d.started ≡ true → (push d v).1.started ≡ true
unfolding push push_waiting push_speaking check_timeout
push-started d v s = ground arith

-- A hop of a detector whose turn goes on.
push-open :
    (d : TurnDetector) (v : Bool)
    → (push d v).1.finished ≡ false
    → (d.finished ≡ false)
      × ((push d v).1.elapsed_hops ≡ d.elapsed_hops + 1)
      × ((push d v).1.timeout_hops ≡ d.timeout_hops)
unfolding push push_waiting push_speaking check_timeout
push-open d v h = ground arith

feed-capped :
    (d : TurnDetector) (vs : List Bool)
    → d.started ≡ true
    → d.timeout_hops ≤ d.elapsed_hops + length vs
    → 1 ≤ length vs
    → (feed d vs).1.finished ≡ true
unfolding feed
feed-capped d [] s h p = absurd (omega arith)
feed-capped d (v ∷ vs) s h p = elim (Bool-cases (push d v).1.finished) [
  | inl c ↦ feed_finished (push d v).1 vs c
  | inr c ↦
      let (f, e, t) = push-open d v c in
      elim (Bool-cases (leb d.timeout_hops (d.elapsed_hops + 1))) [
        | inl q ↦ absurd (ground (arith, push-capped d v s (leb→le _ _ q)))
        | inr q ↦ feed-capped (push d v).1 vs (push-started d v s) (ground arith) (ground arith)
      ]
]

-- From any state, a turn is over one hop after its timeout at the latest.
pub feed-ends :
    (d : TurnDetector) (vs : List Bool)
    → d.timeout_hops + 1 ≤ d.elapsed_hops + length vs
    → 2 ≤ length vs
    → (feed d vs).1.finished ≡ true
unfolding feed
feed-ends d [] h p = absurd (omega arith)
feed-ends d (v ∷ vs) h p = elim (Bool-cases (push d v).1.finished) [
  | inl c ↦ feed_finished (push d v).1 vs c
  | inr c ↦
      let (f, e, t) = push-open d v c in
      elim (Bool-cases (leb d.timeout_hops (d.elapsed_hops + 1))) [
        | inl q ↦ elim (push-settled d v (leb→le _ _ q)) [
          | inl c' ↦ cc
          | inr s ↦ feed-capped (push d v).1 vs s (omega (arith, e, t)) (omega arith)
        ]
        | inr q ↦ feed-ends (push d v).1 vs (omega (arith, e, t)) (ground arith)
      ]
]
