-- ===== src/Capture/Tests.antt =====
-- The laws of `Capture` at a concrete upload.
use echo_voice_satellite.Prelude.{
  if◌then◌else◌, zeros, length-zeros, ℕ, ◌≡◌, refl, true, false, none, some, List, [], ◌∷◌, ◌++◌,
  arith, string_eq,
}
use echo_voice_satellite.Prelude.Int.{pos}
use echo_voice_satellite.Prelude.Dict.{get, put}
use echo_voice_satellite.Prelude.Result.{ok, err}
use echo_voice_satellite.Capture.{Receiver, new_receiver, feed}
use echo_voice_satellite.Capture.Metadata.{
  Library, Json, Object, object, truth, int, real, text, other, validate_metadata, unhashable,
}
use echo_voice_satellite.Capture.Upload.{IsReceiving, feed-IsReceiving}
use echo_voice_satellite.Capture.Fields.{as_float, is_score}
use echo_voice_satellite.Capture.Transfer.{
  IsCapture, captured, begin_message, pcm_messages, last_message, last_of, feed_all, feed-last,
  upload-arrives,
}

abbrev percent : ℕ → Json
percent n = real (record { minus = false; num = n; den = 100 })

abbrev sixteen : List ℕ
sixteen = 1 ∷ 2 ∷ 3 ∷ 4 ∷ 5 ∷ 6 ∷ 7 ∷ 8 ∷ 9 ∷ 10 ∷ 11 ∷ 12 ∷ 13 ∷ 14 ∷ 15 ∷ 16 ∷ []

abbrev metadata : Object
metadata =
    ("captureId", text "c1")
    ∷ ("model", text "hey")
    ∷ ("classifierMd5", text "0f")
    ∷ ("kind", text "miss")
    ∷ ("score", percent 40)
    ∷ ("threshold", percent 50)
    ∷ ("nearMissFloor", percent 30)
    ∷ ("sampleRate", int (pos 16000))
    ∷ ("sampleWidth", int (pos 2))
    ∷ ("channels", int (pos 1))
    ∷ ("frameBytes", int (pos 2560))
    ∷ ("activationSeq", int (pos 7))
    ∷ ("requestedPrerollMs", int (pos 160))
    ∷ ("actualPrerollMs", int (pos 80))
    ∷ ("complete", truth false)
    ∷ ("bargeThresholdActive", truth true)
    ∷ []

abbrev library : Library
library = record {
  loads = λ body. object metadata;
  md5 = λ p. sixteen;
  is_id = λ s. true;
  is_model = λ s. true;
  is_checksum = λ s. true;
}

valid : validate_metadata library metadata ≡ ok metadata
unfolding validate_metadata get put
valid = refl

-- A kind that is a list is a `TypeError`.
list_kind : validate_metadata library (put "kind" other metadata) ≡ err unhashable
unfolding validate_metadata get put
list_kind = refl

abbrev frame : List ℕ
frame = zeros 2560

one_frame : IsCapture library metadata (frame ∷ [])
unfolding get
one_frame = record {
  framed = (length-zeros 2560, tt);
  some_frames = λ e. cc;
  few = omega arith;
  digest = refl;
  stated = refl;
}

abbrev body : List ℕ
body = 123 ∷ 125 ∷ []

upload-arrives_example :
    (feed_all library new_receiver (
        begin_message body
        ∷ (pcm_messages 0 (frame ∷ []) ++ last_message library (frame ∷ []) ∷ []))
      ≡ (new_receiver, ok none ∷ last_of 1 (captured metadata (frame ∷ []))))
    × (get "score" metadata
        ≡ (if is_score "score" then as_float (get "score" metadata) else get "score" metadata))
upload-arrives_example =
    upload-arrives library body metadata metadata (frame ∷ []) "score" (omega arith) (omega arith)
      refl valid one_frame

abbrev waiting : Receiver
waiting = record { metadata = some metadata; chunks = frame ∷ []; next_index = 1 }

waiting-IsReceiving : IsReceiving waiting
waiting-IsReceiving = record {
  counted = refl;
  bounded = omega arith;
  framed = (length-zeros 2560, tt);
  idle = λ e. cc;
}

feed-IsReceiving_example : IsReceiving (feed library waiting (17 ∷ 0 ∷ 9 ∷ frame)).0
feed-IsReceiving_example = feed-IsReceiving library waiting (17 ∷ 0 ∷ 9 ∷ frame) waiting-IsReceiving

abbrev closing : List ℕ
closing = last_message library (frame ∷ [])

finished : feed library waiting closing ≡ (new_receiver, ok (some (captured metadata (frame ∷ []))))
finished = feed-last library metadata (frame ∷ []) 1 one_frame
