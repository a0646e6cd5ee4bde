-- ===== src/TurnEngine/Registry/Tests.antt =====
-- The laws of the turn registry and of the calls on a turn at concrete values.
use echo_voice_satellite.Prelude.{
  ℕ, ◌≡◌, refl, true, false, none, some, List, [], ◌∷◌, nat_eq, string_eq,
}
use echo_voice_satellite.Prelude.Dict.{get}
use echo_voice_satellite.Prelude.Int.{pos}
use echo_voice_satellite.Prelude.Result.{ok}
use echo_voice_satellite.AudioFrame.{encode_frame}
use echo_voice_satellite.Stop
use echo_voice_satellite.TurnEngine.Turn.{Turn, new_turn, Device, Step, end_turn}
use echo_voice_satellite.TurnEngine.Action.{
  Action, cancel, reject, accept, endpoint, speech_start, transcript, acts,
}
use echo_voice_satellite.TurnEngine.Action.Laws.{IsCoherent, acts-IsCoherent}
use echo_voice_satellite.TurnEngine.Registry.{
  Engine, first_live, admit_barge, run, calls, barges, stops,
}
use echo_voice_satellite.TurnEngine.Registry.Coherent.{AllCoherent, run-AllCoherent}

abbrev seven : ℕ
seven = 7

abbrev turn : Turn
turn = record (new_turn 7 1 5) {
  has_thinking = true;
  socket_ready = true;
  request_id = some "r1";
  socket = some 40;
  capture_audio = true;
}

abbrev device : Device
device = record {
  device_id = "kitchen";
  stopword_capable = true;
  stop_model_ready = true;
  stop_generation = pos 0;
  stop_state = Stop.init;
  stop_threshold = 7500;
  speaking = true;
  oww_model = "hey";
  barge_detected = false;
  barge_request_id = none;
  cancel_event = false;
  last_wake = none;
}

abbrev engine : Engine
engine = record {
  turns = (7, turn) ∷ [];
  audio_sockets = (7, 40) ∷ [];
  devices = λ r. device;
  sent = [];
}

abbrev step : Step
step = record { turn = turn; device = device; sent = [] }

turn-IsCoherent : IsCoherent turn
turn-IsCoherent = record { woken = refl; caused = refl; exclusive = refl; stopped = refl }

abbrev some_calls : List (Action × ℕ)
some_calls =
    (accept, 1)
    ∷ (transcript (some "lights") false, 2)
    ∷ (speech_start, 3)
    ∷ (endpoint, 4)
    ∷ (cancel, 5)
    ∷ []

acts-IsCoherent_example : IsCoherent (acts step some_calls).turn
acts-IsCoherent_example = acts-IsCoherent step some_calls turn-IsCoherent

abbrev ended_step : Step
ended_step = record step { turn = end_turn turn "barged" false }

ended_reason : ended_step.turn.end_reason ≡ some "barged"
unfolding end_turn
ended_reason = refl

turn_registered : get 7 engine.turns ≡ some turn
unfolding get
turn_registered = refl

turn_is_live : first_live 1 engine.turns ≡ some (7, turn)
unfolding first_live
turn_is_live = refl

barge_refused : (admit_barge engine 1 "r2" 9000 5000 3 false).1 ≡ false
unfolding admit_barge first_live
barge_refused = refl

run-AllCoherent_example :
    AllCoherent
      (run engine
        (calls 7 reject 3 ∷ barges 1 "r2" 9000 5000 3 true ∷ stops "kitchen" 7 none ∷ [])).turns
run-AllCoherent_example = run-AllCoherent engine _ (turn-IsCoherent, tt)

abbrev chunk : List ℕ
chunk = 3 ∷ 0 ∷ 0 ∷ 0 ∷ 0 ∷ 0 ∷ 9 ∷ 8 ∷ []

abbrev end_chunk : List ℕ
end_chunk = 4 ∷ 0 ∷ 0 ∷ 0 ∷ 0 ∷ 1 ∷ []

encode_chunk : encode_frame 3 0 (9 ∷ 8 ∷ []) ≡ ok chunk
unfolding encode_frame
encode_chunk = refl

encode_end : encode_frame 4 1 [] ≡ ok end_chunk
unfolding encode_frame
encode_end = refl

socket_registered : get 7 engine.audio_sockets ≡ some 40
unfolding get
socket_registered = refl
