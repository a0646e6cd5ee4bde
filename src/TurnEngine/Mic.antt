-- ===== src/TurnEngine/Mic.antt =====
-- `_send_mic` of controller/em_turn_engine.py: the task that forwards a turn's microphone audio to the
-- integration. One `pump` is what the task does from where it waits to where it waits next; other tasks
-- move between two pumps. A message is sent when it is given to the socket; that sending raises on a closed
-- connection is not modelled.
pub mod Stream
pub mod Delivery
mod Tests
use echo_voice_satellite.Prelude.{
  ℕ, ◌+◌, ◌-◌, String, Bool, true, false, Option, none, some, List, [], ◌∷◌, ◌++◌, ◌&&◌, ◌||◌, not,
  length, take, ltb, is_given, if◌then◌else◌, ◌==◌, nat_eq, string_eq, ◌≡◌,
}
use echo_voice_satellite.Prelude.Result.{Result, ok, err}
use echo_voice_satellite.AudioFrame.{FrameError, encode_frame, mic_pcm, mic_eos, mic_frame_bytes}
use echo_voice_satellite.TurnEngine.Turn.{Turn}

abbrev pub max_utterance_bytes : ℕ
max_utterance_bytes = 960000

abbrev pub vad_sentinel_timeout : String
vad_sentinel_timeout = "vad_no_speech_timeout"

-- What stands in `device.voice_queue`: audio, or `None` or a text in its place.
pub data Item : Type 0 where
  pcm : List ℕ → Item
  mark : Option String → Item

-- Where the task is: at what is left of the initial audio, at the head of its loop, in the wait for the
-- queue, or at its end, which has sent the end of the stream or not, or is an error.
pub data Point : Type 0 where
  initial : List (List ℕ) → Point
  head : Point
  waiting : Point
  closed : Point
  returned : Point
  raised : FrameError → Point

pub record Mic : Type 0 where
  pub turn : Turn
  pub queue : List Item
  pub sent : List (List ℕ)
  pub point : Point

abbrev has_socket : Turn → Bool
has_socket t = elim t.socket [ none ↦ false | some w ↦ true ]

-- `if stt_text or speech_started`
abbrev is_text : Option String → Bool
is_text none = false
is_text (some s) = not (s == "")

abbrev pub heard : Turn → Bool
heard t = is_text t.stt_text || t.speech_started

-- `forward`, first part: the audio that is kept of the turn
abbrev pub keep : Turn → List ℕ → Turn
keep t payload =
    if t.capture_audio && ltb (length t.mic_audio) max_utterance_bytes
    then record t {
      mic_audio = t.mic_audio ++ take (max_utterance_bytes - length t.mic_audio) payload;
    }
    else t

-- `forward`, second part: the frame is sent and the task goes on at a point, unless it cannot be encoded.
abbrev pub emit : Mic → Result FrameError (List ℕ) → Point → Mic
emit m (ok raw) next = record m {
  turn = record m.turn { mic_sequence = m.turn.mic_sequence + 1 };
  sent = m.sent ++ raw ∷ [];
  point = next;
}
emit m (err e) next = record m { point = raised e }

pub forward : Mic → List ℕ → Point → Mic
forward m payload next =
    emit (record m { turn = keep m.turn payload })
      (encode_frame mic_pcm m.turn.mic_sequence payload) next

-- Behind the loop: the end of the stream.
abbrev send_eos : Mic → Result FrameError (List ℕ) → Mic
send_eos m (ok raw) = record m { sent = m.sent ++ raw ∷ []; point = closed }
send_eos m (err e) = record m { point = raised e }

pub finish : Mic → Mic
finish m =
    if has_socket m.turn && not m.turn.cancelled
    then send_eos m (encode_frame mic_eos m.turn.mic_sequence [])
    else record m { point = returned }

abbrev is_timeout : Option String → Bool
is_timeout none = false
is_timeout (some s) = s == vad_sentinel_timeout

-- The turn at a mark: it is one without speech if the device's deadline passed and nobody was heard.
abbrev pub marked : Turn → Option String → Turn
marked t s = record t {
  no_speech = t.no_speech || (is_timeout s && not (heard t));
  endpoint = true;
}

abbrev is_skipped : Turn → Bool
is_skipped t = ltb 0 t.preroll_remaining && (elim t.initial_audio [ [] ↦ true | p ∷ ps ↦ false ])

pub take_item : Mic → Item → Mic
take_item m (mark s) = finish (record m { turn = marked m.turn s })
take_item m (pcm payload) =
    if not (has_socket m.turn)
    then record m { turn = record m.turn { endpoint = true }; point = returned }
    else if not (length payload == mic_frame_bytes)
    then record m { point = head }
    else if is_skipped m.turn
    then record m {
      turn = record m.turn { preroll_remaining = m.turn.preroll_remaining - 1 };
      point = head;
    }
    else forward m payload head

pub pump_at : Mic → Point → Mic
pump_at m (initial []) = record m { point = head }
pump_at m (initial (p ∷ ps)) =
    if not (has_socket m.turn) || m.turn.cancelled
    then record m { point = returned }
    else forward m p (initial ps)
pump_at m head = if m.turn.cancelled then finish m else record m { point = waiting }
-- an empty queue is a wait of one second that ends with nothing
pump_at m waiting = elim m.queue [
  | [] ↦ record m { point = head }
  | item ∷ items ↦ take_item (record m { queue = items }) item
]
pump_at m closed = m
pump_at m returned = m
pump_at m (raised e) = m

pub pump : Mic → Mic
pump m = pump_at m m.point

-- The task as `_run_turn` starts it.
abbrev pub new_pump : Turn → List Item → Mic
new_pump t items = record { turn = t; queue = items; sent = []; point = initial t.initial_audio }

pub data Move : Mic → Mic → Type 0 where
  pumps : (m : Mic) → Move m (pump m)
  -- another task changes the turn, but not the count of its frames, and the device queues audio
  others :
      (m : Mic) (t : Turn) (items : List Item)
      → t.mic_sequence ≡ m.turn.mic_sequence
      → Move m (record m { turn = t; queue = m.queue ++ items })

pub data Reaches : Mic → Mic → Type 0 where
  here : (m : Mic) → Reaches m m
  then_move : (m m' m'' : Mic) → Move m m' → Reaches m' m'' → Reaches m m''
