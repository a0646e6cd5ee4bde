-- ===== src/TurnClock.antt =====
-- controller/em_turnclock.py: whether a turn closes because nobody spoke. Times are ticks of one monotonic
-- clock, and the reason is the kind of its text with the limit in it.
mod Laws
mod Tests
use echo_voice_satellite.Prelude.{
  ℕ, ◌-◌, ◌+◌, Bool, true, false, Option, none, some, ltb, if◌then◌else◌,
}

pub data Reason : Type 0 where
  no_speech_within : ℕ → Reason
  no_audio_within : ℕ → Reason

-- `now - since > limit`, without the subtraction; `some` of a reason is to close for it
abbrev pub waited : ℕ → ℕ → ℕ → Reason → Option Reason
waited now since limit why = if ltb (since + limit) now then some why else none

pub no_speech_verdict : ℕ → ℕ → Option ℕ → Bool → ℕ → ℕ → Option Reason
no_speech_verdict now turn_start since true timeout grace = none
no_speech_verdict now turn_start (some t) false timeout grace =
    waited now t timeout (no_speech_within timeout)
no_speech_verdict now turn_start none false timeout grace =
    waited now turn_start grace (no_audio_within grace)
