-- ===== src/Integration/Tests.antt =====
-- The laws of `Integration` at concrete streams.
use echo_voice_satellite.Prelude.{
  zeros, length-zeros, ℕ, ◌%◌, ◌≡◌, refl, true, false, none, some, List, [], ◌∷◌, ◌++◌, map, arith,
  length, All, concat,
}
use echo_voice_satellite.AudioFrame.{encode_frame}
use echo_voice_satellite.TurnEngine.Turn.{Turn, new_turn}
use echo_voice_satellite.TurnEngine.Mic.{mark, pcm, new_pump}
use echo_voice_satellite.TurnEngine.Mic.Delivery.{pumps_for, pump_times}
use echo_voice_satellite.TurnEngine.Registry.{receive_all}
use echo_voice_satellite.TurnEngine.Upsampler.{tts_chunks, upsample_24_to_48}
use echo_voice_satellite.Integration.{new_channel, send_tts, send_tts_eos, mic_frames, returned}
use echo_voice_satellite.Integration.Speech.{
  Process, Speech, usable, send_piece, send_pieces, send_reads, stream_result_to_audio,
  max_tts_bytes,
}
use echo_voice_satellite.Integration.Speech.Pieces.{IsPiece, wire}
use echo_voice_satellite.Integration.Speech.Delivery.{verdict, eos_after, stream_result-verdict}
use echo_voice_satellite.Integration.Speech.Ending.{send_pieces-stops}
use echo_voice_satellite.Integration.Voice.{microphone_reaches, speech_reaches}

-- ffmpeg writes a sample across two reads.
abbrev process : Process
process = record {
  reads = (1 ∷ 2 ∷ 3 ∷ []) ∷ (4 ∷ 5 ∷ 6 ∷ []) ∷ [];
  feeder_raises = false;
  exits_zero = true;
}

abbrev six : List ℕ
six = 1 ∷ 2 ∷ 3 ∷ 4 ∷ 5 ∷ 6 ∷ []

stream_result-verdict_example :
    let r = stream_result_to_audio 100 process new_channel in
    (ps : List (List ℕ)) × All IsPiece ps
    × (concat ps ++ r.0.pending ≡ six)
    × (length r.0.pending ≡ length six % 2)
    × (r.1 ≡ verdict process (length six))
    × (r.0.channel.messages ≡ wire 0 ps ++ eos_after (verdict process (length six)) (length ps))
stream_result-verdict_example = stream_result-verdict 100 process (omega arith) (omega arith)

-- A limit that is reached between two reads.
limited : (stream_result_to_audio 4 process new_channel).0.channel.sent_eos ≡ false
unfolding stream_result_to_audio send_reads send_pieces send_piece send_tts encode_frame
limited = refl

abbrev pending_six : Speech
pending_six = record { channel = new_channel; pending = six; sent = 0 }

send_pieces-stops_example :
    (send_pieces 6 100 pending_six ≡ send_pieces 9 100 pending_six)
    × ((send_pieces 6 100 pending_six).1 ≡ none
        → usable (send_pieces 6 100 pending_six).0.pending ≡ 0)
send_pieces-stops_example = send_pieces-stops 6 9 100 pending_six (omega arith) (omega arith)

abbrev turn : Turn
turn = record (new_turn 7 1 5) { socket = some 40 }

abbrev messages : List (List ℕ)
messages =
    (3 ∷ 0 ∷ 0 ∷ 0 ∷ 0 ∷ 0 ∷ 1 ∷ 2 ∷ [])
    ∷ (3 ∷ 0 ∷ 0 ∷ 0 ∷ 0 ∷ 1 ∷ 3 ∷ 4 ∷ 5 ∷ 6 ∷ [])
    ∷ (4 ∷ 0 ∷ 0 ∷ 0 ∷ 0 ∷ 2 ∷ [])
    ∷ []

converted : messages ≡ (stream_result_to_audio max_tts_bytes process new_channel).0.channel.messages
unfolding stream_result_to_audio send_reads send_pieces send_piece send_tts send_tts_eos
    encode_frame
converted = refl

abbrev arrivals : List (List ℕ × ℕ)
arrivals = map (λ m. (m, 9)) messages

speech_reaches_example :
    (outs : List (List ℕ)) × (tts_chunks none (receive_all turn arrivals).tts_queue ≡ some outs)
    × (upsample_24_to_48 six ≡ some (concat outs))
speech_reaches_example =
    speech_reaches process turn arrivals (omega arith) refl refl refl refl refl converted

abbrev silence : List ℕ
silence = zeros 2560

microphone_reaches_example :
    let m =
      pump_times
        (pumps_for [] (silence ∷ silence ∷ []))
        (new_pump turn (map pcm (silence ∷ silence ∷ []) ++ (mark none ∷ []))) in
    mic_frames (map some m.sent ++ []) ≡ ([] ++ silence ∷ silence ∷ [], returned)
microphone_reaches_example =
    microphone_reaches turn (silence ∷ silence ∷ []) none [] 40 [] (refl, refl, refl) refl tt
      (length-zeros 2560, (length-zeros 2560, tt)) (omega arith)
