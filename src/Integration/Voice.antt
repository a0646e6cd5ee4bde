-- ===== src/Integration/Voice.antt =====
-- A turn's audio from one program to the other: the microphone's from the controller's task
-- (controller/em_turn_engine.py) to the integration's generator (client.py), and the speech from the
-- conversion (tts_stream.py) to what the controller plays.
use echo_voice_satellite.Prelude.{
  ℕ, ◌+◌, ◌%◌, ◌≤◌, String, ◌≡◌, refl, sym, ap, ◌∙◌, true, false, Option, none, some, List, [], ◌∷◌,
  ◌++◌, map, All, All-append, concat, arith, append_nil, empty_of-length, length, length-append,
  nat_eq,
}
use echo_voice_satellite.Prelude.Result.{ok}
use echo_voice_satellite.AudioFrame.{
  encode_frame, header, mic_pcm, mic_eos, tts_pcm, tts_eos, start,
}
use echo_voice_satellite.AudioFrame.Codec.{decode-encode}
use echo_voice_satellite.TurnEngine.Turn.{Turn}
use echo_voice_satellite.TurnEngine.Mic.{Item, mark, pcm, new_pump}
use echo_voice_satellite.TurnEngine.Mic.Delivery.{
  frames, pumps_for, pump_times, pump-delivers, pcm_encodes, eos_encodes, IsMicFrame, IsUndisturbed,
}
use echo_voice_satellite.TurnEngine.Registry.{receive_all}
use echo_voice_satellite.TurnEngine.Registry.Sockets.{IsEncoded, receive_all-delivers}
use echo_voice_satellite.TurnEngine.Upsampler.{tts_chunks, upsample_24_to_48}
use echo_voice_satellite.TurnEngine.Upsampler.Laws.{IsWhole, tts_chunks-upsample}
use echo_voice_satellite.Integration.{Received, returned, mic_frames, new_channel}
use echo_voice_satellite.Integration.Speech.{Process, stream_result_to_audio, max_tts_bytes}
use echo_voice_satellite.Integration.Speech.Pieces.{
  IsPiece, wire, encode_piece, length-pieces, zero-add,
}
use echo_voice_satellite.Integration.Speech.Delivery.{
  read_all, verdict, eos_after, stream_result-verdict,
}

mic_frames-frames :
    (n : ℕ) (ps : List (List ℕ)) (rest : List Received)
    → All IsMicFrame ps
    → n + length ps ≤ 4294967295
    → mic_frames (map some (frames n ps) ++ rest) ≡ (ps, returned)
unfolding mic_frames
mic_frames-frames n [] rest h le =
    rw
      (
        decode-encode mic_eos n [] (header mic_eos n ++ []) (eos_encodes n (omega arith)),
        mic_frames,
      )
      refl
mic_frames-frames n (p ∷ ps) rest (one, h) le =
    rw
      (
        decode-encode mic_pcm n p (header mic_pcm n ++ p) (pcm_encodes n p (omega arith) one),
        mic_frames,
        mic_frames-frames (n + 1) ps rest h (omega arith),
      )
      refl

-- The microphone reaches Home Assistant: of a turn with a socket, not cancelled and with nothing to skip,
-- whose queue holds audio up to a mark, the integration's generator yields the initial audio and the queue's,
-- payload for payload and in order, and then returns, whatever is received behind. The payloads are frames
-- of the microphone's size, and their count fits the sequence.
pub microphone_reaches :
    (t : Turn) (ps : List (List ℕ)) (s : Option String) (items : List Item) (w : ℕ)
    (rest : List Received)
    → IsUndisturbed t w
    → t.mic_sequence ≡ 0
    → All IsMicFrame t.initial_audio
    → All IsMicFrame ps
    → length t.initial_audio + length ps ≤ 4294967295
    → let m =
        pump_times (pumps_for t.initial_audio ps) (new_pump t (map pcm ps ++ (mark s ∷ items))) in
      mic_frames (map some m.sent ++ rest) ≡ (t.initial_audio ++ ps, returned)
microphone_reaches t ps s items w rest u z h h' le =
    let (c, sent, done, left) = pump-delivers t ps s items w u z h h' le in
    rw sent (
      mic_frames-frames 0 (t.initial_audio ++ ps) rest
        (All-append IsMicFrame t.initial_audio ps h h')
        (omega (arith, length-append t.initial_audio ps)))

IsEncoded-wire :
    (n : ℕ) (ps : List (List ℕ)) (arrivals : List (List ℕ × ℕ))
    → All IsPiece ps
    → n + length ps ≤ 4294967295
    → map (λ m. m.0) arrivals ≡ wire n ps ++ header tts_eos (n + length ps) ∷ []
    → IsEncoded n ps arrivals
unfolding encode_frame
IsEncoded-wire n [] [] h le e = cc
IsEncoded-wire n [] ((raw, now) ∷ rest) h le e = ground arith
IsEncoded-wire n (p ∷ ps) [] h le e = cc
IsEncoded-wire n (p ∷ ps) ((raw, now) ∷ rest) (one, h) le e =
    let first : raw ≡ header tts_pcm n ++ p = ground arith in
    let later : map (λ m. m.0) rest ≡ wire (n + 1) ps ++ header tts_eos (n + length (p ∷ ps)) ∷ [] =
      ground arith in
    (
      rw first (encode_piece n p one (omega arith)),
      IsEncoded-wire (n + 1) ps rest h (omega arith)
          (later ∙ ap (λ k. wire (n + 1) ps ++ header tts_eos k ∷ []) (omega arith)),
    )

IsPiece-IsWhole : (ps : List (List ℕ)) → All IsPiece ps → All IsWhole ps
IsPiece-IsWhole [] h = tt
IsPiece-IsWhole (p ∷ ps) ((a, b, e), h) = (e, IsPiece-IsWhole ps h)

-- The speech reaches the Echo: if the output of the conversion is even and within the limit, the feeder does
-- not raise and the process exits with 0, then a turn of the controller that receives the messages of the
-- channel, at whatever times, plays what upsampling the whole output at once gives, byte for byte, and comes
-- to the end of it. The turn had received no speech before.
pub speech_reaches :
    (p : Process) (t : Turn) (arrivals : List (List ℕ × ℕ))
    → length (read_all p.reads) ≤ max_tts_bytes
    → length (read_all p.reads) % 2 ≡ 0
    → p.feeder_raises ≡ false
    → p.exits_zero ≡ true
    → t.tts_queue ≡ []
    → t.tts_sequence ≡ start
    → map (λ m. m.0) arrivals
      ≡ (stream_result_to_audio max_tts_bytes p new_channel).0.channel.messages
    → (outs : List (List ℕ)) × (tts_chunks none (receive_all t arrivals).tts_queue ≡ some outs)
      × (upsample_24_to_48 (read_all p.reads) ≡ some (concat outs))
speech_reaches p t arrivals le even fed exits quiet fresh same =
    let out = read_all p.reads in
    let (ps, pieces, parts, odd, ends, sent) =
      stream_result-verdict max_tts_bytes p (omega arith) le in
    let r = stream_result_to_audio max_tts_bytes p new_channel in
    let fits = length-pieces ps pieces in
    let size = length-append (concat ps) r.0.pending in
    let joined = ap length parts in
    let nil : r.0.pending ≡ [] = empty_of-length r.0.pending (odd ∙ even) in
    let all_sent : concat ps ≡ out =
      sym (append_nil (concat ps)) ∙ ap (λ q. concat ps ++ q) (sym nil) ∙ parts in
    let good : verdict p (length out) ≡ ok (length out) = ground (arith, fed, exits, even) in
    let wired =
      same
      ∙ sent
      ∙ ap (λ v. wire 0 ps ++ eos_after v (length ps)) good
      ∙ ap (λ k. wire 0 ps ++ header tts_eos k ∷ []) (zero-add (length ps)) in
    let queue =
      receive_all-delivers t 0 ps arrivals fresh
        (IsEncoded-wire 0 ps arrivals pieces (omega arith) wired) in
    let (outs, plays, whole) = tts_chunks-upsample ps [] (IsPiece-IsWhole ps pieces) in
    (
      outs,
      ap (λ q. tts_chunks none q) (queue ∙ ap (λ q. q ++ (map some ps ++ none ∷ [])) quiet) ∙ plays,
      ap (λ b. upsample_24_to_48 b) (sym all_sent) ∙ whole,
    )
