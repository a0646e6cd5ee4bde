-- ===== src/TurnEngine/Action/Speech.antt =====
-- The relay of speech evidence to the device (`_disarm_no_speech` of controller/em_turn_engine.py).
use echo_voice_satellite.Prelude.{
  ℕ, ◌+◌, String, ◌≡◌, is_given, Bool, true, false, Option, none, some, List, [], ◌∷◌, ◌++◌, ◌||◌,
  arith, if◌then◌else◌,
}
use echo_voice_satellite.Prelude.Int.{pos, ◌+ℤ◌}
use echo_voice_satellite.TurnEngine.Turn.{
  on_thinking, on_transcript, turn_state, tool_call_saved, Effect, Step, end_turn, arm_stop,
  disarm_no_speech, no_speech_disarm, stop_arm,
}
use echo_voice_satellite.TurnEngine.Action.{
  start_speech, set_endpoint, tell_thinking, tell_transcript, announce, ToolCall, Action, endpoint,
  tts_start, speech_start, transcript, tts_text, tool_call, hear, text_of, save_tool_call, act,
  acts,
}

-- How often the device has been told that its no-speech deadline is off.
abbrev pub disarms : List Effect → ℕ
disarms [] = 0
disarms (no_speech_disarm d ∷ es) = disarms es + 1
disarms (e ∷ es) = disarms es

disarms-append :
    (es : List Effect) (e : Effect) → disarms (es ++ e ∷ []) ≡ disarms es + disarms (e ∷ [])
disarms-append [] e = omega arith
disarms-append (no_speech_disarm d ∷ es) e = omega (arith, disarms-append es e)
disarms-append (_ ∷ es) e = disarms-append es e

-- The call is evidence that Home Assistant heard speech.
abbrev pub is_speech : Action → Bool
is_speech speech_start = true
is_speech (transcript text f) = is_given (text_of text)
is_speech a = false

abbrev pub any_speech : List (Action × ℕ) → Bool
any_speech [] = false
any_speech ((a, now) ∷ rest) = is_speech a || any_speech rest

-- The flag and the count move together, from `b` and `n`.
record Moves (b : Bool) (n : ℕ) (s : Step) (heard : Bool) : Type 0 where
  flag : s.turn.no_speech_disarmed ≡ (b || heard)
  count : disarms s.sent ≡ n + (if b then 0 else if heard then 1 else 0)

abbrev MovesFrom : Step → Step → Bool → Type 0
MovesFrom s s' heard = Moves s.turn.no_speech_disarmed (disarms s.sent) s' heard

arm_stop-Moves :
    (b : Bool) (n : ℕ) (s : Step) (p : String) (now : ℕ)
    → Moves b n s false
    → Moves b n (arm_stop s p now) false
unfolding arm_stop
arm_stop-Moves b n s p now m = record {
  flag = ground (arith, m.flag);
  count = ground (
    arith,
    m.count,
    disarms-append s.sent
        (stop_arm s.turn.device s.turn.turn_id (s.device.stop_generation +ℤ pos 1) p),
  );
}

disarm-Moves :
    (b : Bool) (n : ℕ) (s : Step) → Moves b n s false → Moves b n (disarm_no_speech s) true
unfolding disarm_no_speech
disarm-Moves b n s m = record {
  flag = ground (arith, m.flag);
  count = ground (arith, m.flag, m.count, disarms-append s.sent (no_speech_disarm s.turn.device));
}

thinking-Moves :
    (b : Bool) (n : ℕ) (s : Step) → Moves b n s false → Moves b n (tell_thinking s) false
thinking-Moves b n s m = record {
  flag = ground (arith, m.flag);
  count = ground (arith, m.count, disarms-append s.sent (on_thinking s.turn.turn_id));
}

transcript-Moves :
    (b : Bool) (n : ℕ) (s : Step) (x : String) (h : Bool)
    → Moves b n s h
    → Moves b n (tell_transcript s x) h
transcript-Moves b n s x h m = record {
  flag = ground (arith, m.flag);
  count = ground (arith, m.count, disarms-append s.sent (on_transcript s.turn.turn_id x));
}

announce-Moves :
    (b : Bool) (n : ℕ) (s : Step) (x : String) → Moves b n s false → Moves b n (announce s x) false
announce-Moves b n s x m = record {
  flag = m.flag;
  count =
      ground
        (arith, m.count, disarms-append s.sent (turn_state s.device.device_id s.turn.turn_id x));
}

here : (s : Step) → MovesFrom s s false
here s = record { flag = ground arith; count = ground arith }

hear-Moves :
    (s : Step) (text : Option String) (f : Bool) (now : ℕ)
    → MovesFrom s (hear s text f now) (is_given text)
unfolding hear
hear-Moves s none f now = here s
hear-Moves s (some x) f now =
    transcript-Moves _ _ _ x true
      (disarm-Moves _ _ _ (record { flag = (here s).flag; count = (here s).count }))

save-Moves : (s : Step) (c : Option ToolCall) → MovesFrom s (save_tool_call s c).0 false
unfolding save_tool_call
save-Moves s none = here s
save-Moves s (some c) = record {
  flag = ground arith;
  count = ground (arith, disarms-append s.sent (tool_call_saved s.turn.turn_id c.sequence));
}

act-Moves : (s : Step) (a : Action) (now : ℕ) → MovesFrom s (act s a now).0 (is_speech a)
unfolding act end_turn
act-Moves s endpoint now = announce-Moves _ _ _ "processing" (
    arm_stop-Moves _ _ _ "thinking" now (
      thinking-Moves _ _ (set_endpoint s now)
        (record { flag = (here s).flag; count = (here s).count })))
act-Moves s tts_start now =
    arm_stop-Moves _ _ _ "playback" now (record { flag = (here s).flag; count = (here s).count })
act-Moves s (transcript text f) now = hear-Moves s (text_of text) f now
act-Moves s speech_start now =
    disarm-Moves _ _ (record s { turn = start_speech s.turn now })
      (record { flag = ground arith; count = ground arith })
act-Moves s (tool_call c) now = save-Moves s c
act-Moves s (tts_text x) now = record { flag = ground arith; count = ground arith }
act-Moves s _ now = record { flag = ground arith; count = ground arith }

acts-Moves : (s : Step) (calls : List (Action × ℕ)) → MovesFrom s (acts s calls) (any_speech calls)
unfolding acts
acts-Moves s [] = here s
acts-Moves s ((a, now) ∷ rest) =
    let m = act-Moves s a now in
    let ih = acts-Moves (act s a now).0 rest in
    record {
      flag = ground (arith, m.flag, ih.flag);
      count = ground (arith, m.flag, m.count, ih.flag, ih.count);
    }

-- Over any calls on a turn whose device has not been told, the device is told exactly once if one of
-- them is evidence of speech, and never if none is.
pub acts-disarms :
    (s : Step) (calls : List (Action × ℕ))
    → s.turn.no_speech_disarmed ≡ false
    → disarms s.sent ≡ 0
    → disarms (acts s calls).sent ≡ (if any_speech calls then 1 else 0)
acts-disarms s calls flag none_sent = ground (arith, (acts-Moves s calls).count)
