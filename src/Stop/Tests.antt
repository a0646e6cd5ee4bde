-- ===== src/Stop/Tests.antt =====
-- The laws of `Stop` at concrete calls.
use echo_voice_satellite.Prelude.{◌≡◌, refl, List, [], ◌∷◌}
use echo_voice_satellite.Prelude.Int.{pos}
use echo_voice_satellite.Stop.{step, StopState, init, arm, detected, Call, arms, detects, accepts}
use echo_voice_satellite.Stop.Laws.{IsAscending, accepts-IsAscending}

abbrev calls : List Call
calls =
    arms (pos 7) (pos 1) "thinking" 50
    ∷ detects (pos 7) (pos 1) "thinking" 20
    ∷ arms (pos 7) (pos 2) "playback" 90
    ∷ detects (pos 7) (pos 1) "thinking" 60
    ∷ detects (pos 7) (pos 2) "playback" 70
    ∷ []

accepts-calls : accepts init calls ≡ pos 1 ∷ pos 2 ∷ []
unfolding accepts step detected arm
accepts-calls = refl

abbrev armed_state : StopState
armed_state = (arm init (pos 7) (pos 1) "thinking" 50).0

accepts-IsAscending_example : IsAscending (pos 0) (accepts init calls)
accepts-IsAscending_example = accepts-IsAscending calls
