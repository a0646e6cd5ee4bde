-- ===== src/DataLink/Tests.antt =====
-- The laws of `DataLink` at concrete messages.
use echo_voice_satellite.Prelude.{
  ℕ, ◌≡◌, refl, true, false, none, some, List, [], ◌∷◌, ◌++◌, arith, nat_eq, string_eq, Option,
  zeros,
}
use echo_voice_satellite.TurnEngine.Mic.{pcm, mark}
use echo_voice_satellite.Capture.{new_receiver}
use echo_voice_satellite.Capture.Metadata.{Library, other_value}
use echo_voice_satellite.DataLink.{Link, Identity, Stored}
use echo_voice_satellite.DataLink.Latest.{
  on_messages, items, recent, on_messages-recent, on_messages-idle,
}

abbrev library : Library
library = record {
  loads = λ body. other_value;
  md5 = λ p. zeros 16;
  is_id = λ s. true;
  is_model = λ s. true;
  is_checksum = λ s. true;
}

abbrev link : Link
link = record {
  save_wake_captures = true;
  save_stop_captures = false;
  oww_paused = true;
  voice_queue = pcm (5 ∷ 6 ∷ []) ∷ [];
  capture_receiver = new_receiver;
}

-- Audio, a capture frame that is out of place, a text, and the end of speech.
abbrev messages : List (Option (List ℕ))
messages =
    some (1 ∷ 0 ∷ 0 ∷ 7 ∷ 8 ∷ []) ∷ some (17 ∷ 0 ∷ 0 ∷ []) ∷ none ∷ some (1 ∷ 0 ∷ 1 ∷ 4 ∷ []) ∷ []

arrived : items messages ≡ pcm (7 ∷ 8 ∷ []) ∷ mark (some "vad_end") ∷ []
arrived = refl

on_messages-recent_example :
    (on_messages library link messages).voice_queue
    ≡ recent (pcm (5 ∷ 6 ∷ []) ∷ [] ++ items messages)
on_messages-recent_example = on_messages-recent library link messages refl (omega arith)

on_messages-idle_example :
    (on_messages library (record link { oww_paused = false }) messages).voice_queue
    ≡ pcm (5 ∷ 6 ∷ []) ∷ []
on_messages-idle_example =
    on_messages-idle library (record link { oww_paused = false }) messages refl

abbrev identity : Identity
identity = record {
  wake_model = "hey";
  stop_model = some "stop";
  wake_md5 = some "0f";
  stop_md5 = none;
  save_wake_captures = true;
  save_stop_captures = true;
  is_current = true;
}

abbrev new_file : Stored
new_file = some ("c1.wav", true)
