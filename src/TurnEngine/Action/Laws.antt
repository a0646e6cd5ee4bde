-- ===== src/TurnEngine/Action/Laws.antt =====
-- What a turn keeps whatever the integration calls, in whatever order (controller/em_turn_engine.py).
use echo_voice_satellite.Prelude.{
  ℕ, String, ◌≡◌, refl, Bool, true, Option, none, some, List, [], ◌∷◌, not, ◌||◌, arith,
}
use echo_voice_satellite.Prelude.{◌∙◌, is_given}
use echo_voice_satellite.TurnEngine.Turn.{Turn, Step, end_turn, arm_stop, disarm_no_speech}
use echo_voice_satellite.TurnEngine.Action.{
  Action, endpoint, accept, reject, cancel, tts_end, tts_start, speech_start, transcript, tts_text,
  pipeline_event, tool_call, unknown, hear, text_of, save_tool_call, act, acts,
}

abbrev pub implies : Bool → Bool → Bool
implies a b = not a || b

-- A cancelled turn has a cause and wakes the wait for its endpoint; no turn is both accepted and
-- rejected, and a rejected one is cancelled.
pub record IsCoherent (t : Turn) : Type 0 where
  pub woken : implies t.cancelled t.endpoint ≡ true
  pub caused : implies t.cancelled (is_given t.end_reason) ≡ true
  pub exclusive : implies t.rejected (not t.accepted) ≡ true
  pub stopped : implies t.rejected t.cancelled ≡ true

arm_stop-IsCoherent :
    (s : Step) (p : String) (now : ℕ) → IsCoherent s.turn → IsCoherent (arm_stop s p now).turn
unfolding arm_stop
arm_stop-IsCoherent s p now v = ground arith

hear-IsCoherent :
    (s : Step) (text : Option String) (f : Bool) (now : ℕ)
    → IsCoherent s.turn
    → IsCoherent (hear s text f now).turn
unfolding hear
hear-IsCoherent s text f now v = ground arith

save-IsCoherent :
    (s : Step) (c : Option _) → IsCoherent s.turn → IsCoherent (save_tool_call s c).0.turn
unfolding save_tool_call
save-IsCoherent s none v = v
save-IsCoherent s (some c) v = ground arith

-- No single call breaks it.
pub act-IsCoherent :
    (s : Step) (a : Action) (now : ℕ) → IsCoherent s.turn → IsCoherent (act s a now).0.turn
unfolding act end_turn disarm_no_speech
act-IsCoherent s endpoint now v = arm_stop-IsCoherent _ "thinking" now (ground arith)
act-IsCoherent s accept now v = ground arith
act-IsCoherent s reject now v = ground arith
act-IsCoherent s cancel now v = ground arith
act-IsCoherent s tts_end now v = ground arith
act-IsCoherent s tts_start now v = arm_stop-IsCoherent _ "playback" now (ground arith)
act-IsCoherent s (transcript text f) now v = hear-IsCoherent s (text_of text) f now v
act-IsCoherent s speech_start now v = ground arith
act-IsCoherent s (tts_text text) now v = ground arith
act-IsCoherent s (pipeline_event e m) now v = ground arith
act-IsCoherent s (tool_call body) now v = save-IsCoherent s body v
act-IsCoherent s unknown now v = v

-- No sequence of calls on a turn breaks its coherence: in particular a turn that any of them cancels or
-- rejects is one whose wait for the endpoint is over, with a cause.
pub acts-IsCoherent :
    (s : Step) (calls : List (Action × ℕ)) → IsCoherent s.turn → IsCoherent (acts s calls).turn
unfolding acts
acts-IsCoherent s [] v = v
acts-IsCoherent s ((a, now) ∷ rest) v =
    acts-IsCoherent (act s a now).0 rest (act-IsCoherent s a now v)

module _ (s : Step) (p : String) (now : ℕ) where
  arm_stop-end_reason : (arm_stop s p now).turn.end_reason ≡ s.turn.end_reason
  unfolding arm_stop
  arm_stop-end_reason = ground arith

hear-end_reason :
    (s : Step) (text : Option String) (f : Bool) (now : ℕ)
    → (hear s text f now).turn.end_reason ≡ s.turn.end_reason
unfolding hear
hear-end_reason s none f now = refl
hear-end_reason s (some x) f now = ground arith

act-end_reason :
    (s : Step) (a : Action) (now : ℕ) (r : String)
    → s.turn.end_reason ≡ some r
    → (act s a now).0.turn.end_reason ≡ some r
unfolding act end_turn disarm_no_speech save_tool_call
act-end_reason s endpoint now r e = arm_stop-end_reason _ "thinking" now ∙ ground arith
act-end_reason s tts_start now r e = arm_stop-end_reason _ "playback" now ∙ e
act-end_reason s (transcript text f) now r e = hear-end_reason s (text_of text) f now ∙ e
act-end_reason s (tool_call none) now r e = e
act-end_reason s _ now r e = ground arith

-- The first cause of a turn's end is the one that is reported: no later call replaces it.
pub acts-end_reason :
    (s : Step) (calls : List (Action × ℕ)) (r : String)
    → s.turn.end_reason ≡ some r
    → (acts s calls).turn.end_reason ≡ some r
unfolding acts
acts-end_reason s [] r e = e
acts-end_reason s ((a, now) ∷ rest) r e =
    acts-end_reason (act s a now).0 rest r (act-end_reason s a now r e)

pub end_turn-IsCoherent :
    (t : Turn) (reason : String) (c : Bool) → IsCoherent t → IsCoherent (end_turn t reason c)
unfolding end_turn
end_turn-IsCoherent t reason c v = ground arith
