-- ===== src/TurnEngine/Registry.antt =====
-- `TurnEngine` of controller/em_turn_engine.py and the functions that work on its registry of live
-- turns: the audio sockets, the REST entry, and cancel, stop, barge and start confirmation. Each runs
-- as one step; a message that cannot be sent (an exception of `send_control`) is not modelled.
pub mod Cancel
pub mod Barge
pub mod Coherent
pub mod Sockets
mod Tests
use echo_voice_satellite.Prelude.{
  ℕ, ◌+◌, ◌-◌, String, Bool, true, false, Option, none, some, List, [], ◌∷◌, ◌++◌, ◌&&◌, ◌||◌, not,
  length, take, is_given, if◌then◌else◌, ◌==◌, nat_eq, string_eq,
}
use echo_voice_satellite.Prelude.Dict.{Dict, get, put, remove}
use echo_voice_satellite.Prelude.Result.{Result, ok, err}
use echo_voice_satellite.AudioFrame.{AudioFrame, Sequence, decode_frame, accept, tts_pcm, tts_eos}
use echo_voice_satellite.TurnEngine.Turn.{
  Turn, Device, Wake, Effect, Step, wake_deny, speaker_flush, turn_state, turn_cancel, or_now,
  end_turn,
}
use echo_voice_satellite.TurnEngine.Action.{Action, Response, act}

-- Turns are keyed by their ids, sockets by the id of their turn; `devices` reads a device object.
pub record Engine : Type 0 where
  pub turns : Dict ℕ Turn
  pub audio_sockets : Dict ℕ ℕ
  pub devices : ℕ → Device
  pub sent : List Effect

abbrev pub set_device : (ℕ → Device) → ℕ → Device → ℕ → Device
set_device ds r d k = if r == k then d else ds k

abbrev pub is_some_of : Option ℕ → ℕ → Bool
is_some_of none k = false
is_some_of (some j) k = j == k

-- `turn.device.device_id`
abbrev pub owner : (ℕ → Device) → Turn → String
owner ds t = (ds t.device).device_id

-- `turn_action`: the turn is looked up, and the call runs on it and on its device.
unfoldable pub turn_action : Engine → ℕ → Action → ℕ → Engine × Option Response
turn_action e tid a now = elim (get tid e.turns) [
  | none ↦ (e, none)
  | some t ↦
      let (s, r) = act (record { turn = t; device = e.devices t.device; sent = e.sent }) a now in
      (
        record e {
          turns = put tid s.turn e.turns;
          devices = set_device e.devices t.device s.device;
          sent = s.sent;
        },
        some r,
      )
]

-- `audio_socket`, up to its loop: the connection `ws` to a turn.
pub data Connection : Type 0 where
  not_found already_open opened : Connection

unfoldable pub open_socket : Engine → ℕ → ℕ → Engine × Connection
open_socket e tid ws = elim (get tid e.turns) [
  | none ↦ (e, not_found)
  | some t ↦ if is_given t.socket then (e, already_open) else (
    record e {
      turns = put tid (record t { socket = some ws; socket_ready = true }) e.turns;
      audio_sockets = put tid ws e.audio_sockets;
      sent = e.sent ++ turn_state (owner e.devices t) tid "listening" ∷ [];
    },
    opened,
  )
]

-- 120 s of speech at 24 kHz, two bytes each
abbrev pub max_tts_audio : ℕ
max_tts_audio = 5760000

abbrev chunk_of : AudioFrame → Option (List ℕ)
chunk_of f = if f.frame_type == tts_eos then none else some f.payload

abbrev captured : Turn → AudioFrame → List ℕ
captured t f =
    if f.frame_type == tts_pcm && t.capture_audio
    then t.tts_audio ++ take (max_tts_audio - length t.tts_audio) f.payload
    else t.tts_audio

-- One message of the loop, with whether the loop goes on. A frame that breaks the protocol closes the
-- socket, as does one of the wrong direction, whose sequence number is taken all the same.
receive_frame : Turn → AudioFrame → ℕ → Turn × Bool
receive_frame t f now = elim (accept t.tts_sequence f) [
  | err x ↦ (t, false)
  | ok s ↦
      if not (f.frame_type == tts_pcm || f.frame_type == tts_eos)
      then (record t { tts_sequence = s }, false)
      else (
        record t {
          tts_sequence = s;
          tts_queue = t.tts_queue ++ chunk_of f ∷ [];
          tts_audio = captured t f;
          tts_ended_mono =
              if f.frame_type == tts_eos then or_now t.tts_ended_mono now else t.tts_ended_mono;
        },
        not (f.frame_type == tts_eos),
      )
]

unfoldable pub receive : Turn → List ℕ → ℕ → Turn × Bool
unfolding receive_frame
receive t raw now = elim (decode_frame raw) [ err x ↦ (t, false) | ok f ↦ receive_frame t f now ]

-- A message that arrives on the socket of a registered turn.
unfoldable pub receive_message : Engine → ℕ → List ℕ → ℕ → Engine
receive_message e tid raw now = elim (get tid e.turns) [
  | none ↦ e
  | some t ↦ record e { turns = put tid (receive t raw now).0 e.turns }
]

-- The end of the loop: the socket is dropped and the speech has ended.
abbrev pub end_speech : Dict ℕ Turn → ℕ → Option Turn → Dict ℕ Turn
end_speech ts tid none = ts
end_speech ts tid (some t) = put tid (record t { tts_end = true }) ts

-- The loop over the messages that arrive, each with the time of its arrival.
unfoldable pub receive_all : Turn → List (List ℕ × ℕ) → Turn
receive_all t [] = t
receive_all t ((raw, now) ∷ rest) =
    let (t', more) = receive t raw now in let t'' = receive_all t' rest in if more then t'' else t'

abbrev pub drop_socket : Dict ℕ Turn → ℕ → ℕ → Option Turn → Dict ℕ Turn
drop_socket ts tid ws none = ts
drop_socket ts tid ws (some t) =
    if is_some_of t.socket ws
    then put tid (record t { socket = none; tts_queue = t.tts_queue ++ none ∷ [] }) ts
    else ts

-- `TurnEngine.unregister_audio_socket`
unfoldable pub unregister_audio_socket : Engine → ℕ → ℕ → Engine
unregister_audio_socket e tid ws = record e {
  audio_sockets =
      if is_some_of (get tid e.audio_sockets) ws
      then remove tid e.audio_sockets
      else e.audio_sockets;
  turns = drop_socket e.turns tid ws (get tid e.turns);
}

unfoldable pub close_socket : Engine → ℕ → ℕ → Engine
unfolding unregister_audio_socket
close_socket e tid ws =
    let e' = unregister_audio_socket e tid ws in
    record e' { turns = end_speech e'.turns tid (get tid e'.turns) }

-- `cancel_voice_turn`
unfoldable pub cancel_turns : (ℕ → Device) → String → String → Dict ℕ Turn → Dict ℕ Turn
cancel_turns ds device_id reason [] = []
cancel_turns ds device_id reason ((k, t) ∷ m) =
    (k, if owner ds t == device_id then end_turn t reason true else t)
    ∷ cancel_turns ds device_id reason m

unfoldable pub turns_of : (ℕ → Device) → String → Dict ℕ Turn → List ℕ
turns_of ds device_id [] = []
turns_of ds device_id ((k, t) ∷ m) =
    let rest = turns_of ds device_id m in if owner ds t == device_id then t.turn_id ∷ rest else rest

unfoldable pub cancel_voice_turn : Engine → String → String → Engine × List ℕ
cancel_voice_turn e device_id reason = (
  record e { turns = cancel_turns e.devices device_id reason e.turns },
  turns_of e.devices device_id e.turns,
)

abbrev pub cancels : String → String → List ℕ → List Effect
cancels device_id reason [] = []
cancels device_id reason (tid ∷ tids) =
    turn_cancel device_id tid reason ∷ cancels device_id reason tids

-- `abort_voice_turns`
unfoldable pub abort_voice_turns : Engine → String → String → Engine × List ℕ
unfolding cancel_voice_turn
abort_voice_turns e device_id reason =
    let (e', ended) = cancel_voice_turn e device_id reason in
    (record e' { sent = e'.sent ++ cancels device_id reason ended }, ended)

abbrev pub is_request : Option String → String → Bool
is_request none r = false
is_request (some q) r = q == r

-- `confirm_device_started`; `device` is a device object
unfoldable pub confirm_device_started : Engine → ℕ → String → ℕ → Engine × Bool
confirm_device_started e device request_id tid = elim (get tid e.turns) [
  | none ↦ (e, false)
  | some t ↦
      if not (t.device == device) || not (is_request t.request_id request_id) || t.cancelled
      then (e, false)
      else (record e { turns = put tid (record t { device_started = true }) e.turns }, true)
]

abbrev pub with_detection : Turn → Option String → Turn
with_detection t none = t
with_detection t (some x) = record t { stop_detection = some x }

-- `stop_voice_turn`; the detection's columns are one text
unfoldable pub stop_voice_turn : Engine → String → ℕ → Option String → Engine × Bool
stop_voice_turn e device_id tid detection = elim (get tid e.turns) [
  | none ↦ (e, false)
  | some t ↦ if not (owner e.devices t == device_id) then (e, false) else (
    record e {
      turns = put tid (end_turn (with_detection t detection) "stopped" true) e.turns;
      sent = e.sent ++ turn_cancel device_id tid "stop" ∷ [];
    },
    true,
  )
]

-- `abort_ha_run`: the cause is recorded and nothing is cancelled
unfoldable pub mark_barged : (ℕ → Device) → String → Dict ℕ Turn → Dict ℕ Turn
mark_barged ds device_id [] = []
mark_barged ds device_id ((k, t) ∷ m) =
    (k, if owner ds t == device_id then end_turn t "barged" false else t)
    ∷ mark_barged ds device_id m

unfoldable pub abort_ha_run : Engine → String → Engine
abort_ha_run e device_id = record e { turns = mark_barged e.devices device_id e.turns }

-- The first live turn of a device object, with its key.
unfoldable pub first_live : ℕ → Dict ℕ Turn → Option (ℕ × Turn)
first_live device [] = none
first_live device ((k, t) ∷ m) =
    if t.device == device && not t.cancelled then some (k, t) else first_live device m

barge : Engine → ℕ → String → ℕ → ℕ → ℕ → ℕ × Turn → Engine
barge e device request_id score threshold seq (k, t) =
    let d = e.devices device in
    let flush = if d.speaking then speaker_flush device ∷ [] else [] in
    record e {
      turns = put k (end_turn t "barged" true) e.turns;
      sent = e.sent ++ turn_cancel d.device_id t.turn_id "barge" ∷ flush;
      devices = set_device e.devices device (record d {
        barge_detected = true;
        barge_request_id = some request_id;
        cancel_event = true;
        last_wake = some (record {
          model = d.oww_model;
          score = score;
          threshold = threshold;
          noise_floor = none;
          activation_seq = seq;
        });
      });
    }

-- `admit_barge`; `valid` is the answer of `admission_valid`, true where none is given
unfoldable pub admit_barge : Engine → ℕ → String → ℕ → ℕ → ℕ → Bool → Engine × Bool
unfolding barge
admit_barge e device request_id score threshold seq valid = elim (first_live device e.turns) [
  | none ↦ (record e { sent = e.sent ++ wake_deny device request_id "busy" ∷ [] }, false)
  | some active ↦
      if not valid
      then (record e { sent = e.sent ++ wake_deny device request_id "disconnected" ∷ [] }, false)
      else (barge e device request_id score threshold seq active, true)
]

-- One call of the controller, of a device or of the integration on the registry.
pub data Call : Type 0 where
  calls : ℕ → Action → ℕ → Call
  opens closes : ℕ → ℕ → Call
  receives : ℕ → List ℕ → ℕ → Call
  cancels_turns aborts : String → String → Call
  confirms : ℕ → String → ℕ → Call
  stops : String → ℕ → Option String → Call
  marks_barged : String → Call
  barges : ℕ → String → ℕ → ℕ → ℕ → Bool → Call

unfoldable pub step : Engine → Call → Engine
step e (calls tid a now) = (turn_action e tid a now).0
step e (opens tid ws) = (open_socket e tid ws).0
step e (closes tid ws) = close_socket e tid ws
step e (receives tid raw now) = receive_message e tid raw now
step e (cancels_turns device_id reason) = (cancel_voice_turn e device_id reason).0
step e (aborts device_id reason) = (abort_voice_turns e device_id reason).0
step e (confirms device request_id tid) = (confirm_device_started e device request_id tid).0
step e (stops device_id tid detection) = (stop_voice_turn e device_id tid detection).0
step e (marks_barged device_id) = abort_ha_run e device_id
step e (barges device request_id score threshold seq valid) =
    (admit_barge e device request_id score threshold seq valid).0

unfoldable pub run : Engine → List Call → Engine
run e [] = e
run e (c ∷ cs) = run (step e c) cs
