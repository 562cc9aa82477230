-- ===== src/Audio/Turn/Examples.antt =====
-- audio/vad.rs at concrete inputs: hops of 16 ms.
use dial_f.Prelude.{◌≡◌, refl, true, false, [], ◌∷◌, List, Bool, arith}
use dial_f.Audio.Turn.{
  TurnConfig, default_turn, new, push, ms_to_hops, push_waiting, push_speaking, check_timeout,
  speech_started, ended, timeout, finish,
}
use dial_f.Audio.Turn.Fed.{feed, listen, add_event}
use dial_f.Audio.Turn.Ending.{Turn, new-ends, listen-new-Turn}
use dial_f.Audio.Turn.Hearing.{heard, due, push-heard}

abbrev brief : TurnConfig
brief = record default_turn {
  end_timeout_ms = 40;
  silence_duration_ms = 20;
  onset_duration_ms = 32;
}

abbrev spoken : List Bool
spoken = true ∷ true ∷ false ∷ false ∷ []

brief_turn :
    listen (new brief) (false ∷ true ∷ true ∷ true ∷ []) ≡ speech_started ∷ ended timeout ∷ []
unfolding listen feed new push push_waiting push_speaking check_timeout finish add_event ms_to_hops
brief_turn = refl

new-ends_example : (feed (new brief) spoken).1.finished ≡ true
new-ends_example = new-ends brief spoken (unfold ms_to_hops in omega arith) (omega arith)

listen-new-Turn_example : Turn false (listen (new brief) spoken)
listen-new-Turn_example = listen-new-Turn brief spoken

push-heard_example :
    (push (heard brief (true ∷ [])) true).0
    ≡ due brief (heard brief (true ∷ [])).started (true ∷ true ∷ [])
push-heard_example =
    push-heard brief (true ∷ []) true
      (unfold heard new push push_waiting check_timeout ms_to_hops in refl)
