-- ===== src/TurnEngine/Registry/Sockets.antt =====
-- The audio socket of a turn: what the loop of `audio_socket` makes of a well-formed stream, and whose
-- close ends it (controller/em_turn_engine.py).
use echo_voice_satellite.Prelude.{
  ℕ, ◌+◌, ◌≤◌, ◌-◌, ◌≡◌, ◌≢◌, refl, ap, ◌∙◌, true, false, none, some, List, [], ◌∷◌, ◌++◌, map,
  length, take, arith, inl, inr, nat_eq, length-append, length-take_le,
}
use mathlib.Core.List.{append_assoc}
use echo_voice_satellite.Prelude.Dict.{get}
use echo_voice_satellite.Prelude.Result.{ok, Result-cases}
use echo_voice_satellite.AudioFrame.{AudioFrame, encode_frame, decode_frame, tts_pcm, tts_eos}
use echo_voice_satellite.AudioFrame.Codec.{decode-encode}
use echo_voice_satellite.AudioFrame.Order.{waiting, accept_this}
use echo_voice_satellite.TurnEngine.Turn.{Turn}
use echo_voice_satellite.TurnEngine.Registry.{
  Engine, receive, receive_frame, receive_all, max_tts_audio, open_socket, unregister_audio_socket,
  already_open,
}

-- The messages are the encodings of the chunks, numbered from `n`, then of an end of stream, and then
-- anything.
abbrev pub IsEncoded : ℕ → List (List ℕ) → List (List ℕ × ℕ) → Type 0
IsEncoded n ps [] = ⊥
IsEncoded n [] ((raw, now) ∷ rest) = encode_frame tts_eos n [] ≡ ok raw
IsEncoded n (p ∷ ps) ((raw, now) ∷ rest) =
    (encode_frame tts_pcm n p ≡ ok raw) × IsEncoded (n + 1) ps rest

frame_of : ℕ → ℕ → List ℕ → AudioFrame
frame_of t n p = record { frame_type = t; sequence = n; payload = p }

module _ (t : Turn) (n : ℕ) (raw : List ℕ) (now : ℕ)
    (waits : t.tts_sequence ≡ waiting n false) where
  receive_chunk :
      (p : List ℕ)
      → encode_frame tts_pcm n p ≡ ok raw
      → ((receive t raw now).0.tts_queue ≡ t.tts_queue ++ some p ∷ [])
        × ((receive t raw now).0.tts_sequence ≡ waiting (n + 1) false)
        × ((receive t raw now).1 ≡ true)
  unfolding receive receive_frame frame_of
  receive_chunk p e =
      rw
        (
          decode-encode tts_pcm n p raw e,
          receive,
          receive_frame,
          waits,
          accept_this n (frame_of tts_pcm n p) refl,
        )
        (refl, refl, refl)

  receive_end :
      encode_frame tts_eos n [] ≡ ok raw
      → ((receive t raw now).0.tts_queue ≡ t.tts_queue ++ none ∷ [])
        × ((receive t raw now).1 ≡ false)
  unfolding receive receive_frame frame_of
  receive_end e =
      rw
        (
          decode-encode tts_eos n [] raw e,
          receive,
          receive_frame,
          waits,
          accept_this n (frame_of tts_eos n []) refl,
        )
        (refl, refl)

-- A well-formed stream is delivered whole: the playback queue gets its chunks in order and then the end
-- mark, once, whatever arrives behind the end of the stream.
pub receive_all-delivers :
    (t : Turn) (n : ℕ) (ps : List (List ℕ)) (messages : List (List ℕ × ℕ))
    → t.tts_sequence ≡ waiting n false
    → IsEncoded n ps messages
    → (receive_all t messages).tts_queue ≡ t.tts_queue ++ (map some ps ++ none ∷ [])
unfolding receive_all
receive_all-delivers t n ps [] w e = absurd e
receive_all-delivers t n [] ((raw, now) ∷ rest) w e =
    let (queue, more) = receive_end t n raw now w e in rw more queue
receive_all-delivers t n (p ∷ ps) ((raw, now) ∷ rest) w (e, es) =
    let (queue, next, more) = receive_chunk t n raw now w p e in
    rw more (
      receive_all-delivers (receive t raw now).0 (n + 1) ps rest next es
      ∙ ap (λ q. q ++ (map some ps ++ none ∷ [])) queue
      ∙ append_assoc t.tts_queue (some p ∷ []) (map some ps ++ none ∷ []))

receive-bound :
    (t : Turn) (raw : List ℕ) (now : ℕ)
    → length t.tts_audio ≤ max_tts_audio
    → length (receive t raw now).0.tts_audio ≤ max_tts_audio
unfolding receive receive_frame
receive-bound t raw now h = elim (Result-cases (decode_frame raw)) [
  | inl (x, e) ↦ rw (e, receive) h
  | inr (f, e) ↦ ground (
    arith,
    e,
    length-append t.tts_audio (take (max_tts_audio - length t.tts_audio) f.payload),
    length-take_le (max_tts_audio - length t.tts_audio) f.payload,
  )
]

-- However much speech arrives, at most 120 s of it are kept for the recording.
pub receive_all-bound :
    (t : Turn) (messages : List (List ℕ × ℕ))
    → length t.tts_audio ≤ max_tts_audio
    → length (receive_all t messages).tts_audio ≤ max_tts_audio
unfolding receive_all
receive_all-bound t [] h = h
receive_all-bound t ((raw, now) ∷ rest) h =
    let first = receive-bound t raw now h in
    ground (arith, receive_all-bound (receive t raw now).0 rest first)

-- A turn has one audio socket: while one is open another is refused and nothing changes, and the close
-- of a socket that is not the registered one leaves the registry and the turn as they were.
pub one_socket :
    (e : Engine) (tid ws other : ℕ) (t : Turn)
    → get tid e.turns ≡ some t
    → t.socket ≡ some ws
    → get tid e.audio_sockets ≡ some ws
    → ws ≢ other
    → (open_socket e tid other ≡ (e, already_open)) × (unregister_audio_socket e tid other ≡ e)
unfolding open_socket unregister_audio_socket
one_socket e tid ws other t q s r ne = (rw (q, open_socket, s), rw (r, q) (ground arith))
