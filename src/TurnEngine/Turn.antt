-- ===== src/TurnEngine/Turn.antt =====
-- `Turn` of controller/em_turn_engine.py, the part of `Device` that the engine reads and writes, the
-- messages that it sends, and the helpers `_end_turn`, `_arm_stop`, `_disarm_stop` and
-- `_disarm_no_speech`. Monotonic times are microseconds; an asyncio event is a Boolean; a socket and a
-- device object are numbers, which stand for their identity.
use echo_voice_satellite.Prelude.{
  ℕ, zero, suc, ◌+◌, String, Bool, true, false, Option, none, some, List, [], ◌∷◌, ◌++◌, ◌&&◌, not,
  if◌then◌else◌,
}
use echo_voice_satellite.Prelude.Int.{ℤ, pos, ◌+ℤ◌}
use echo_voice_satellite.AudioFrame.{Sequence, start}
use echo_voice_satellite.Stop
use echo_voice_satellite.Stop.{StopState, Decision}

-- A chunk of speech, or the end mark `None`.
abbrev pub Chunk : Type 0
Chunk = Option (List ℕ)

pub record Turn : Type 0 where
  pub turn_id : ℕ
  pub device : ℕ
  pub has_thinking : Bool
  pub has_transcript : Bool
  pub socket_ready : Bool
  pub accepted : Bool
  pub rejected : Bool
  pub device_started : Bool
  pub request_id : Option String
  pub endpoint : Bool
  pub cancelled : Bool
  pub end_reason : Option String
  pub tts_end : Bool
  pub tts_queue : List Chunk
  pub socket : Option ℕ
  pub tts_sequence : Sequence
  pub mic_sequence : ℕ
  pub continue_conversation : Bool
  pub no_speech : Bool
  pub no_speech_disarmed : Bool
  pub speech_started : Bool
  pub speech_start_mono : Option ℕ
  pub preroll_remaining : ℕ
  pub started_mono : ℕ
  pub endpoint_mono : Option ℕ
  pub transcript_mono : Option ℕ
  pub intent_mono : Option ℕ
  pub tts_started_mono : Option ℕ
  pub tts_ended_mono : Option ℕ
  pub stt_text : Option String
  pub tts_text : Option String
  pub capture_audio : Bool
  pub initial_audio : List (List ℕ)
  pub mic_audio : List ℕ
  pub tts_audio : List ℕ
  pub stop_generation : Option ℤ
  pub stop_phase : Option String
  pub stop_detection : Option String

-- A turn as it is created: with its id, its device and the time.
abbrev pub new_turn : ℕ → ℕ → ℕ → Turn
new_turn tid device now = record {
  turn_id = tid;
  device = device;
  has_thinking = false;
  has_transcript = false;
  socket_ready = false;
  accepted = false;
  rejected = false;
  device_started = false;
  request_id = none;
  endpoint = false;
  cancelled = false;
  end_reason = none;
  tts_end = false;
  tts_queue = [];
  socket = none;
  tts_sequence = start;
  mic_sequence = 0;
  continue_conversation = false;
  no_speech = false;
  no_speech_disarmed = false;
  speech_started = false;
  speech_start_mono = none;
  preroll_remaining = 0;
  started_mono = now;
  endpoint_mono = none;
  transcript_mono = none;
  intent_mono = none;
  tts_started_mono = none;
  tts_ended_mono = none;
  stt_text = none;
  tts_text = none;
  capture_audio = false;
  initial_audio = [];
  mic_audio = [];
  tts_audio = [];
  stop_generation = none;
  stop_phase = none;
  stop_detection = none;
}

-- `device.last_wake`; scores are in ten-thousandths, as the code rounds them.
pub record Wake : Type 0 where
  pub model : String
  pub score : ℕ
  pub threshold : ℕ
  pub noise_floor : Option ℕ
  pub activation_seq : ℕ

pub record Device : Type 0 where
  pub device_id : String
  pub stopword_capable : Bool
  pub stop_model_ready : Bool
  pub stop_generation : ℤ
  pub stop_state : StopState
  pub stop_threshold : ℕ
  pub speaking : Bool
  pub oww_model : String
  pub barge_detected : Bool
  pub barge_request_id : Option String
  pub cancel_event : Bool
  pub last_wake : Option Wake

-- The control messages to a device, the events to the integration, the callbacks of a turn, and the
-- write of a tool call to the database.
pub data Effect : Type 0 where
  wake_deny : ℕ → String → String → Effect
  stop_arm : ℕ → ℕ → ℤ → String → Effect
  stop_disarm : ℕ → ℤ → Effect
  no_speech_disarm : ℕ → Effect
  speaker_flush : ℕ → Effect
  turn_state : String → ℕ → String → Effect
  turn_cancel : String → ℕ → String → Effect
  on_thinking : ℕ → Effect
  on_transcript : ℕ → String → Effect
  tool_call_saved : ℕ → ℤ → Effect

-- A turn, its device, and what has been sent.
pub record Step : Type 0 where
  pub turn : Turn
  pub device : Device
  pub sent : List Effect

-- `mono or time.monotonic()`: a reading of exactly 0 counts as none.
abbrev pub or_now : Option ℕ → ℕ → Option ℕ
or_now none now = some now
or_now (some zero) now = some now
or_now (some (suc n)) now = some (suc n)

-- The first cause of the end stays.
abbrev pub first_reason : Option String → String → Option String
first_reason none r = some r
first_reason (some q) r = some q

-- `_end_turn(turn, reason, cancel=cancel)`
unfoldable pub end_turn : Turn → String → Bool → Turn
end_turn t reason cancel =
    if cancel
    then record t {
      end_reason = first_reason t.end_reason reason;
      cancelled = true;
      tts_queue = t.tts_queue ++ none ∷ [];
      endpoint = true;
    }
    else record t { end_reason = first_reason t.end_reason reason }

-- 135 s
abbrev pub stop_expiry : ℕ
stop_expiry = 135000000

abbrev is_armed : Stop.Action → Bool
is_armed Stop.armed = true
is_armed a = false

-- `_arm_stop(turn, phase)`
unfoldable pub arm_stop : Step → String → ℕ → Step
arm_stop s phase now =
    let d = s.device in
    let t = s.turn in
    let generation = d.stop_generation +ℤ pos 1 in
    let (state, decision) =
      Stop.arm d.stop_state (pos t.turn_id) generation phase (now + stop_expiry) in
    if not (d.stopword_capable && d.stop_model_ready)
    then s
    else if is_armed decision.action
    then record {
      turn = record t { stop_generation = some generation; stop_phase = some phase };
      device = record d { stop_generation = generation; stop_state = state };
      sent = s.sent ++ stop_arm t.device t.turn_id generation phase ∷ [];
    }
    else record s { device = record d { stop_generation = generation; stop_state = state } }

-- `_disarm_stop(turn)`
unfoldable pub disarm_stop : Step → Step
disarm_stop s = elim s.turn.stop_generation [
  | none ↦ s
  | some generation ↦ record {
    turn = record s.turn { stop_generation = none };
    device = record s.device { stop_state = (Stop.disarm s.device.stop_state (some generation)).0 };
    sent = s.sent ++ stop_disarm s.turn.device generation ∷ [];
  }
]

-- `_disarm_no_speech(turn)`
unfoldable pub disarm_no_speech : Step → Step
disarm_no_speech s = if s.turn.no_speech_disarmed then s else record s {
  turn = record s.turn { no_speech_disarmed = true };
  sent = s.sent ++ no_speech_disarm s.turn.device ∷ [];
}
