-- ===== src/TurnEngine/Mic/Tests.antt =====
-- The laws of `TurnEngine.Mic` at concrete turns.
use echo_voice_satellite.Prelude.{zeros, ℕ, ◌≡◌, refl, true, some, List, [], ◌∷◌}
use echo_voice_satellite.Prelude.Result.{ok}
use echo_voice_satellite.AudioFrame.{start}
use echo_voice_satellite.TurnEngine.Turn.{Turn, new_turn}
use echo_voice_satellite.TurnEngine.Mic.{
  Item, mark, Mic, vad_sentinel_timeout, pump, new_pump, pumps, others, here, then_move,
}
use echo_voice_satellite.TurnEngine.Mic.Stream.{receives, receiver, sends_stream}

abbrev turn : Turn
turn = record (new_turn 7 1 5) {
  has_thinking = true;
  socket_ready = true;
  request_id = some "r1";
  socket = some 40;
  capture_audio = true;
}

-- The device stops speaking, the task waits for the queue, and it finds the mark.
abbrev timed_out : List Item
timed_out = mark (some vad_sentinel_timeout) ∷ []

abbrev queued : Mic
queued = record (new_pump turn []) { queue = timed_out }

sends_stream_example : receives start (pump (pump queued)).sent ≡ ok (receiver (pump (pump queued)))
sends_stream_example = sends_stream turn [] (pump (pump queued)) refl (
    then_move _ _ _ (others (new_pump turn []) turn timed_out refl)
      (then_move _ _ _ (pumps queued) (then_move _ _ _ (pumps (pump queued)) (here _))))

abbrev silence : List ℕ
silence = zeros 2560
