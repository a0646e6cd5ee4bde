-- ===== src/AudioFrame/Tests.antt =====
-- The laws of `AudioFrame` at concrete frames.
use echo_voice_satellite.Prelude.{ℕ, ◌≡◌, refl, List, [], ◌∷◌, arith, true, false}
use echo_voice_satellite.Prelude.Result.{ok, err}
use echo_voice_satellite.AudioFrame.{
  AudioFrame, encode_frame, decode_frame, flags_set, truncated, tts_size, accept, accept_all,
}
use echo_voice_satellite.AudioFrame.Codec.{decode-encode, encode-decode}
use echo_voice_satellite.AudioFrame.Order.{waiting}

abbrev speech : AudioFrame
speech = record { frame_type = 3; sequence = 0; payload = 7 ∷ 255 ∷ [] }

abbrev last : AudioFrame
last = record { frame_type = 4; sequence = 1; payload = [] }

abbrev wire : List ℕ
wire = 3 ∷ 0 ∷ 0 ∷ 0 ∷ 1 ∷ 2 ∷ 7 ∷ 255 ∷ []

abbrev decoded_wire : AudioFrame
decoded_wire = record { frame_type = 3; sequence = 258; payload = 7 ∷ 255 ∷ [] }

encode_wire : encode_frame 3 258 (7 ∷ 255 ∷ []) ≡ ok wire
unfolding encode_frame
encode_wire = refl

encode_odd : encode_frame 3 0 (7 ∷ []) ≡ err tts_size
unfolding encode_frame
encode_odd = refl

decode_short : decode_frame (3 ∷ 0 ∷ []) ≡ err truncated
unfolding decode_frame
decode_short = refl

decode_flags : decode_frame (3 ∷ 1 ∷ 0 ∷ 0 ∷ 0 ∷ 0 ∷ 1 ∷ 2 ∷ []) ≡ err flags_set
unfolding decode_frame
decode_flags = refl

encode-decode_example : encode_frame 3 258 (7 ∷ 255 ∷ []) ≡ ok wire
encode-decode_example =
    encode-decode wire decoded_wire (omega arith)
      (decode-encode 3 258 (7 ∷ 255 ∷ []) wire encode_wire)

accept_two : accept_all (waiting 0 false) (speech ∷ last ∷ []) ≡ ok (waiting 2 true)
unfolding accept_all accept
accept_two = refl
