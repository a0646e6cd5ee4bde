-- ===== src/AudioFrame.antt =====
-- controller/em_audio_frame.py: the frames of the audio WebSocket, six bytes of header (type, flags,
-- big-endian sequence) and a payload, and the receiver's check of one direction's sequence.
-- Bytes are numbers; frame types and sequences are never negative in the callers.
pub mod Codec
pub mod Order
mod Tests
use echo_voice_satellite.Prelude.{
  ℕ, ◌+◌, ◌*◌, ◌/◌, ◌%◌, ◌^◌, Bool, true, false, List, [], ◌∷◌, ◌++◌, length, ltb, leb, not, ◌&&◌,
  ◌||◌, ◌==◌, nat_eq,
}
use echo_voice_satellite.Prelude.Result.{Result, ok, err, ◌>>=◌, ◌>>◌, raise_if}

abbrev pub mic_pcm : ℕ
mic_pcm = 1

abbrev pub mic_eos : ℕ
mic_eos = 2

abbrev pub tts_pcm : ℕ
tts_pcm = 3

abbrev pub tts_eos : ℕ
tts_eos = 4

abbrev pub mic_frame_bytes : ℕ
mic_frame_bytes = 2560

abbrev pub tts_frame_bytes : ℕ
tts_frame_bytes = 24000

-- One constructor for each message of `AudioProtocolError`.
pub data FrameError : Type 0 where
  unknown_type sequence_out_of_range eos_payload mic_size tts_size : FrameError
  truncated flags_set after_eos sequence_error : FrameError

pub record AudioFrame : Type 0 where
  pub frame_type : ℕ
  pub sequence : ℕ
  pub payload : List ℕ

abbrev pub is_eos : ℕ → Bool
is_eos t = t == mic_eos || t == tts_eos

abbrev pub is_type : ℕ → Bool
is_type t = t == mic_pcm || t == mic_eos || t == tts_pcm || t == tts_eos

abbrev pub is_empty : List ℕ → Bool
is_empty [] = true
is_empty (x ∷ xs) = false

-- `struct.Struct(">BBI").pack(frame_type, 0, sequence)`
abbrev pub header : ℕ → ℕ → List ℕ
header t s = t ∷ 0 ∷ (s / 2 ^ 24 % 256) ∷ (s / 2 ^ 16 % 256) ∷ (s / 2 ^ 8 % 256) ∷ (s % 256) ∷ []

abbrev pub word : ℕ → ℕ → ℕ → ℕ → ℕ
word a b c d = a * 2 ^ 24 + b * 2 ^ 16 + c * 2 ^ 8 + d

unfoldable pub encode_frame : ℕ → ℕ → List ℕ → Result FrameError (List ℕ)
encode_frame t s payload = do
  raise_if (not (is_type t)) unknown_type
  raise_if (ltb 4294967295 s) sequence_out_of_range
  raise_if (is_eos t && not (is_empty payload)) eos_payload
  raise_if (t == mic_pcm && not (length payload == mic_frame_bytes)) mic_size
  raise_if
      (t == tts_pcm
        && (is_empty payload
            || ltb tts_frame_bytes (length payload)
            || not (length payload % 2 == 0)))
      tts_size
  ok (header t s ++ payload)

unfoldable pub decode_frame : List ℕ → Result FrameError AudioFrame
decode_frame (t ∷ flags ∷ a ∷ b ∷ c ∷ d ∷ payload) = do
  raise_if (not (flags == 0)) flags_set
  _ ← encode_frame t (word a b c d) payload
  ok (record { frame_type = t; sequence = word a b c d; payload = payload })
decode_frame _ = err truncated

-- `Sequence`
pub record Sequence : Type 0 where
  pub expected : ℕ
  pub eos : Bool

abbrev pub start : Sequence
start = record { expected = 0; eos = false }

pub accept : Sequence → AudioFrame → Result FrameError Sequence
accept s f = do
  raise_if s.eos after_eos
  raise_if (not (f.sequence == s.expected)) sequence_error
  ok (record { expected = s.expected + 1; eos = is_eos f.frame_type })

-- The receiver over a stream of frames; the first error closes the connection.
pub accept_all : Sequence → List AudioFrame → Result FrameError Sequence
accept_all s [] = ok s
accept_all s (f ∷ fs) = do s' ← accept s f; accept_all s' fs
