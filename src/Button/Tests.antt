-- ===== src/Button/Tests.antt =====
-- The laws of `Button` at concrete presses.
use echo_voice_satellite.Prelude.{◌≡◌, refl, true, false, List, [], ◌∷◌, arith}
use echo_voice_satellite.Button.{hold, decide, Step, taps, wakes}
use echo_voice_satellite.Button.Laws.{decide_gesture}

decide_gesture_example : decide 700 600 true false false ≡ hold
unfolding decide
decide_gesture_example =
    decide_gesture 700 600 true false false hold (λ e. ground arith) (λ e. ground arith) refl

-- Two taps, between which the task of an earlier burst wakes.
abbrev double_tap : List Step
double_tap = wakes 2 true ∷ taps ∷ []
