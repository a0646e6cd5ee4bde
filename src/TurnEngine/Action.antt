-- ===== src/TurnEngine/Action.antt =====
-- `turn_action` of controller/em_turn_engine.py: the REST calls of the integration on one live turn.
-- Each call runs as one step; one clock reading stands for those that a call makes. A transcript's
-- body is read before the step, and a body that does not parse is one with no text.
pub mod Laws
pub mod Speech
use echo_voice_satellite.Prelude.{
  ℕ, ◌+◌, ◌<◌, String, Bool, true, false, Option, none, some, List, [], ◌∷◌, ◌++◌, ◌&&◌, ◌||◌, not,
  ltb, leb, length, if◌then◌else◌, ◌==◌, string_eq,
}
use echo_voice_satellite.Prelude.Int.{ℤ, pos, leb_ℤ}
use echo_voice_satellite.TurnEngine.Turn.{
  Turn, Device, Effect, Step, turn_state, on_thinking, on_transcript, tool_call_saved, or_now,
  end_turn, arm_stop, disarm_no_speech,
}

-- The body of `tool-call`, with its texts as code points and its JSON as the encoded bytes.
pub record ToolCall : Type 0 where
  pub sequence : ℤ
  pub call_id : List ℕ
  pub name : List ℕ
  pub status : String
  pub request_json : List ℕ
  pub response_json : List ℕ

-- The last part of the request's path, with the fields of the body that the action reads.
pub data Action : Type 0 where
  endpoint accept reject cancel tts_end tts_start speech_start : Action
  transcript : Option String → Bool → Action
  tts_text : Option String → Action
  pipeline_event : String → Bool → Action
  -- `none` is a body that is not an object with the needed keys
  tool_call : Option ToolCall → Action
  unknown : Action

pub data Response : Type 0 where
  done invalid_tool_call tool_trace_too_large : Response

abbrev tool_trace_max_bytes : ℕ
tool_trace_max_bytes = 262144

-- `text` is a string, and not empty
abbrev pub text_of : Option String → Option String
text_of none = none
text_of (some s) = if s == "" then none else some s

abbrev is_blank : List ℕ → Bool
is_blank [] = true
is_blank (x ∷ xs) = false

abbrev is_status : String → Bool
is_status s = s == "pending" || s == "ok" || s == "error"

abbrev is_bad : ToolCall → Bool
is_bad c =
    not (leb_ℤ (pos 0) c.sequence)
    || is_blank c.call_id
    || ltb 256 (length c.call_id)
    || is_blank c.name
    || ltb 512 (length c.name)
    || not (is_status c.status)

abbrev is_large : ToolCall → Bool
is_large c =
    ltb tool_trace_max_bytes (length c.request_json)
    || ltb tool_trace_max_bytes (length c.response_json)

unfoldable pub save_tool_call : Step → Option ToolCall → Step × Response
save_tool_call s none = (s, invalid_tool_call)
save_tool_call s (some c) =
    if is_bad c
    then (s, invalid_tool_call)
    else if is_large c
    then (s, tool_trace_too_large)
    else (record s { sent = s.sent ++ tool_call_saved s.turn.turn_id c.sequence ∷ [] }, done)

-- `if turn.on_transcript is not None: await turn.on_transcript(text)`
abbrev pub tell_transcript : Step → String → Step
tell_transcript s text =
    if s.turn.has_transcript
    then record s { sent = s.sent ++ on_transcript s.turn.turn_id text ∷ [] }
    else s

unfoldable pub hear : Step → Option String → Bool → ℕ → Step
unfolding disarm_no_speech
hear s none is_final now = s
hear s (some text) is_final now =
    let t = s.turn in
    let timed = record t {
      transcript_mono = if is_final then or_now t.transcript_mono now else t.transcript_mono;
      stt_text = some text;
    } in
    tell_transcript (disarm_no_speech (record s { turn = timed })) text

abbrev with_tts_text : Turn → Option String → Turn
with_tts_text t none = t
with_tts_text t (some text) = record t { tts_text = some text }

abbrev pub tell_thinking : Step → Step
tell_thinking s =
    if s.turn.has_thinking then record s { sent = s.sent ++ on_thinking s.turn.turn_id ∷ [] } else s

abbrev pub announce : Step → String → Step
announce s state = record s {
  sent = s.sent ++ turn_state s.device.device_id s.turn.turn_id state ∷ [];
}

abbrev pub set_endpoint : Step → ℕ → Step
set_endpoint s now = record s {
  turn = record s.turn { endpoint_mono = or_now s.turn.endpoint_mono now; endpoint = true };
}

abbrev pub start_speech : Turn → ℕ → Turn
start_speech t now =
    if t.speech_started then t else record t { speech_started = true; speech_start_mono = some now }

unfoldable pub act : Step → Action → ℕ → Step × Response
unfolding end_turn hear save_tool_call
act s endpoint now =
    (announce (arm_stop (tell_thinking (set_endpoint s now)) "thinking" now) "processing", done)
act s accept now =
    (if s.turn.rejected then s else record s { turn = record s.turn { accepted = true } }, done)
act s reject now = (
  if s.turn.accepted then s else record s {
    turn = end_turn (record s.turn { rejected = true }) "backend_unavailable" true;
  },
  done,
)
act s cancel now = (record s { turn = end_turn s.turn "cancelled" true }, done)
act s tts_end now =
    let t = s.turn in
    (
      record s {
        turn = record t {
          tts_ended_mono = or_now t.tts_ended_mono now;
          tts_end = true;
          tts_queue = t.tts_queue ++ none ∷ [];
        };
      },
      done,
    )
act s tts_start now =
    let t = s.turn in
    (
      arm_stop (record s { turn = record t { tts_started_mono = or_now t.tts_started_mono now } })
          "playback" now,
      done,
    )
act s (transcript text is_final) now = (hear s (text_of text) is_final now, done)
act s speech_start now = (disarm_no_speech (record s { turn = start_speech s.turn now }), done)
act s (tts_text text) now = (record s { turn = with_tts_text s.turn (text_of text) }, done)
act s (pipeline_event event more) now =
    let t = s.turn in
    (
      if event == "intent_end"
          then record s {
            turn = record t {
              intent_mono = or_now t.intent_mono now;
              continue_conversation = more;
            };
          }
          else s,
      done,
    )
act s (tool_call body) now = save_tool_call s body
act s unknown now = (s, done)

-- The calls on one turn, in the order in which they arrive.
unfoldable pub acts : Step → List (Action × ℕ) → Step
acts s [] = s
acts s ((a, now) ∷ rest) = acts (act s a now).0 rest
