-- ===== src/TurnClock/Tests.antt =====
-- The laws of `TurnClock` at concrete clocks.
use echo_voice_satellite.Prelude.{◌≡◌, refl, false, some, arith}
use echo_voice_satellite.TurnClock.{no_speech_within, no_speech_verdict}
use echo_voice_satellite.TurnClock.Laws.{no_speech_verdict_later}

no_speech_verdict_later_example :
    no_speech_verdict 9999 1000 (some 4500) false 5000 5000 ≡ some (no_speech_within 5000)
unfolding no_speech_verdict
no_speech_verdict_later_example =
    no_speech_verdict_later 9600 9999 1000 (some 4500) false 5000 5000 (no_speech_within 5000)
      (omega arith) refl
