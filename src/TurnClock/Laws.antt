-- ===== src/TurnClock/Laws.antt =====
-- When a turn closes for want of speech (controller/em_turnclock.py).
use echo_voice_satellite.Prelude.{
  ℕ, ◌+◌, ◌≤◌, ◌≡◌, ◌↔◌, ◌⊎◌, Bool, true, false, Option, none, some, arith,
}
use echo_voice_satellite.TurnClock.{Reason, no_speech_verdict}

-- Since when, and for how long, a turn has been waiting.
abbrev pub deadline : ℕ → Option ℕ → ℕ → ℕ → ℕ
deadline turn_start none timeout grace = turn_start + grace
deadline turn_start (some t) timeout grace = t + timeout

-- A turn stays open exactly while speech was heard or the deadline has not passed; the deadline is the
-- first audio frame's as soon as there is one, however late after the start of the turn it came.
pub no_speech_verdict_iff :
    (now turn_start : ℕ) (since : Option ℕ) (speech : Bool) (timeout grace : ℕ)
    → (no_speech_verdict now turn_start since speech timeout grace ≡ none)
      ↔ ((speech ≡ true) ⊎ (now ≤ deadline turn_start since timeout grace))
unfolding no_speech_verdict
no_speech_verdict_iff now turn_start none true timeout grace = ground arith
no_speech_verdict_iff now turn_start (some t) true timeout grace = ground arith
no_speech_verdict_iff now turn_start none false timeout grace = ground arith
no_speech_verdict_iff now turn_start (some t) false timeout grace = ground arith

-- A turn that is to close stays so as time passes, for the same reason.
pub no_speech_verdict_later :
    (now later turn_start : ℕ) (since : Option ℕ) (speech : Bool) (timeout grace : ℕ) (why : Reason)
    → now ≤ later
    → no_speech_verdict now turn_start since speech timeout grace ≡ some why
    → no_speech_verdict later turn_start since speech timeout grace ≡ some why
unfolding no_speech_verdict
no_speech_verdict_later now later turn_start since true timeout grace why le h = ground arith
no_speech_verdict_later now later turn_start none false timeout grace why le h = ground arith
no_speech_verdict_later now later turn_start (some t) false timeout grace why le h = ground arith
