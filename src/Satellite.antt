-- ===== src/Satellite.antt =====
-- hacs/custom_components/echo_voice_satellite/assist_satellite.py: which turn the integration's entity owns, and
-- what it tells the controller of it. A token is an object that is made for each offer that is taken, here a
-- number that is not used again. A handler is cut where it awaits a call of the controller: the first part runs to
-- the call, which `sent` records, and what follows is a function of its own that takes whether the call succeeded
-- (`ControllerError` otherwise), so that other handlers may run in between.
pub mod Stale
mod Tests
use echo_voice_satellite.Prelude.{
  ℕ, ◌+◌, String, Bool, true, false, not, ◌&&◌, Option, none, some, List, [], ◌∷◌, ◌++◌,
  if◌then◌else◌, ◌==◌, nat_eq, string_eq,
}

-- The turn, its token and its audio channel.
pub record Ownership : Type 0 where
  pub turn_id : ℕ
  pub token : ℕ
  pub channel : ℕ

-- `async_turn_action`
pub data Action : Type 0 where
  accept reject endpoint speech_start tts_end failure : Action
  transcript : String → Bool → Action
  tts_text : String → Action
  intent_end : Bool → Action

pub record Satellite : Type 0 where
  pub active : Option Ownership
  pub next_token : ℕ
  pub transcript_sent : Bool
  pub endpoint_sent : Bool
  pub speech_start_sent : Bool
  pub tts_task : Option ℕ
  pub sent : List (ℕ × Action)

abbrev pub new_satellite : Satellite
new_satellite = record {
  active = none;
  next_token = 0;
  transcript_sent = false;
  endpoint_sent = false;
  speech_start_sent = false;
  tts_task = none;
  sent = [];
}

abbrev post : Satellite → ℕ → Action → Satellite
post s turn a = record s { sent = s.sent ++ (turn, a) ∷ [] }

abbrev same_owner : Ownership → Ownership → Bool
same_owner a b = a.turn_id == b.turn_id && (a.token == b.token && a.channel == b.channel)

-- `_owns_turn`
pub owns_turn : Satellite → Ownership → Bool
owns_turn s o = elim s.active [ none ↦ false | some a ↦ same_owner a o ]

abbrev begun : Satellite → ℕ → ℕ → Satellite
begun s turn channel = record s {
  active = some (record { turn_id = turn; token = s.next_token; channel = channel });
  next_token = s.next_token + 1;
  transcript_sent = false;
  endpoint_sent = false;
  speech_start_sent = false;
  tts_task = none;
}

-- `_handle_wake_offer` up to the answer of the acceptance: the channel, if it could be attached
unfoldable pub handle_wake_offer : ℕ → Option ℕ → Satellite → Satellite
handle_wake_offer turn attached s = elim s.active [
  | some a ↦ post s turn reject
  | none ↦ elim attached [
    | none ↦ post s turn reject
    | some channel ↦ post (begun s turn channel) turn accept
  ]
]

-- The rest of `_handle_wake_offer`, with whether the controller took the acceptance
unfoldable pub after_accept : ℕ → Bool → Satellite → Satellite
after_accept turn works s = if works then s else post (record s { active = none }) turn reject

abbrev is_turn : Option Ownership → ℕ → Bool
is_turn none turn = false
is_turn (some a) turn = a.turn_id == turn

-- `turn.cancel` and `turn.terminal` of the controller, which only concern the turn that is owned
unfoldable pub gateway_end : ℕ → Bool → Satellite → Satellite
gateway_end turn cancels s =
    let s' : Satellite = record s { active = none; tts_task = none } in
    if is_turn s.active turn then (if cancels then post s' turn tts_end else s') else s

-- What the pipeline reports: the start of speech, its text, the answer with whether it goes on, whether there is a
-- spoken answer, and an error.
pub data PipelineEvent : Type 0 where
  vad_start : PipelineEvent
  stt_end : Option String → PipelineEvent
  intent_ended : Option String → Bool → PipelineEvent
  tts_ended : Bool → PipelineEvent
  error : PipelineEvent

-- Where `_async_pipeline_event` awaits the controller and has something left to do.
pub data Point : Type 0 where
  transcribed endpointed : Point
  answered : Bool → Point

abbrev is_text : Option String → Bool
is_text none = false
is_text (some t) = not (t == "")

abbrev text_of : Option String → String
text_of none = ""
text_of (some t) = t

abbrev is_absent : Option ℕ → Bool
is_absent none = true
is_absent (some t) = false

abbrev respond : Ownership → PipelineEvent → Satellite → Satellite
respond o vad_start s =
    if s.speech_start_sent
    then s
    else post (record s { speech_start_sent = true }) o.turn_id speech_start
respond o (stt_end text) s =
    if not s.transcript_sent && is_text text
    then post s o.turn_id (transcript (text_of text) true)
    else post s o.turn_id endpoint
respond o (intent_ended text continues) s =
    if is_text text
    then post s o.turn_id (tts_text (text_of text))
    else post s o.turn_id (intent_end continues)
respond o (tts_ended given) s =
    if given && is_absent s.tts_task then record s { tts_task = some o.token } else s
respond o error s = post s o.turn_id failure

-- `_async_pipeline_event` up to its first call, of an event that was bound to a turn when it came
unfoldable pub pipeline_event : Ownership → PipelineEvent → Satellite → Satellite
unfolding owns_turn
pipeline_event o e s = if owns_turn s o then respond o e s else s

-- The rest of `_async_pipeline_event` after a call that succeeded; after one that failed nothing is left to do.
unfoldable pub resume : Ownership → Point → Satellite → Satellite
unfolding owns_turn
resume o transcribed s =
    let told : Satellite = record s { transcript_sent = true } in
    if owns_turn s o then post told o.turn_id endpoint else told
resume o endpointed s = record s { endpoint_sent = true }
resume o (answered continues) s =
    if owns_turn s o then post s o.turn_id (intent_end continues) else s

-- `_on_partial`, of a stream that is bound to a turn
unfoldable pub on_partial : Ownership → String → Satellite → Satellite
unfolding owns_turn
on_partial o text s = if owns_turn s o then post s o.turn_id (transcript text false) else s

pub data Move : Type 0 where
  offers : ℕ → Option ℕ → Move
  accepts : ℕ → Bool → Move
  ends : ℕ → Bool → Move
  reports : Ownership → PipelineEvent → Move
  resumes : Ownership → Point → Move
  hears : Ownership → String → Move

unfoldable pub move : Move → Satellite → Satellite
move (offers turn attached) s = handle_wake_offer turn attached s
move (accepts turn works) s = after_accept turn works s
move (ends turn cancels) s = gateway_end turn cancels s
move (reports o e) s = pipeline_event o e s
move (resumes o p) s = resume o p s
move (hears o text) s = on_partial o text s

unfoldable pub moves : List Move → Satellite → Satellite
moves [] s = s
moves (m ∷ ms) s = moves ms (move m s)
