-- ===== src/Integration.antt =====
-- The Home Assistant integration's end of a turn's audio
-- (hacs/custom_components/echo_voice_satellite): `AudioChannel` of client.py, over a WebSocket that lists
-- the messages sent on it. audio_frame.py is there the code of controller/em_audio_frame.py, which
-- `AudioFrame` models. A send that the connection refuses is not modelled.
pub mod Speech
pub mod Voice
mod Tests
use echo_voice_satellite.Prelude.{
  ℕ, ◌+◌, Bool, true, false, not, Option, none, some, List, [], ◌∷◌, ◌++◌, if◌then◌else◌, ◌==◌,
  nat_eq,
}
use echo_voice_satellite.Prelude.Result.{Result, ok, err, ◌>>=◌, ◌>>◌, raise_if}
use echo_voice_satellite.AudioFrame.{
  FrameError, AudioFrame, encode_frame, decode_frame, mic_pcm, mic_eos, tts_pcm, tts_eos,
}

pub data ChannelError : Type 0 where
  bad_frame : FrameError → ChannelError
  audio_sequence_error unexpected_frame : ChannelError

pub record Channel : Type 0 where
  pub tts_sequence : ℕ
  pub sent_eos : Bool
  pub messages : List (List ℕ)

abbrev pub new_channel : Channel
new_channel = record { tts_sequence = 0; sent_eos = false; messages = [] }

abbrev pub framed : Result FrameError (List ℕ) → Result ChannelError (List ℕ)
framed (err x) = err (bad_frame x)
framed (ok raw) = ok raw

unfoldable pub send_tts : Channel → List ℕ → Result ChannelError Channel
send_tts c payload = do
  raise_if c.sent_eos audio_sequence_error
  raw ← framed (encode_frame tts_pcm c.tts_sequence payload)
  ok (record c { tts_sequence = c.tts_sequence + 1; messages = c.messages ++ raw ∷ [] })

abbrev ended : Channel → Result ChannelError Channel
ended c = do
  raw ← framed (encode_frame tts_eos c.tts_sequence [])
  ok (record {
    tts_sequence = c.tts_sequence + 1;
    sent_eos = true;
    messages = c.messages ++ raw ∷ [];
  })

unfoldable pub send_tts_eos : Channel → Result ChannelError Channel
send_tts_eos c = if c.sent_eos then ok c else ended c

-- A message that is received: its bytes, or none when it is not binary (text, close or error).
abbrev pub Received : Type 0
Received = Option (List ℕ)

-- How the generator ends: it returns at the controller's end of stream or at the socket's, or it raises. One
-- that would wait for a further message is `waiting`.
pub data Ending : Type 0 where
  returned waiting : Ending
  raised : ChannelError → Ending

abbrev one_frame : AudioFrame → List (List ℕ) × Ending → List (List ℕ) × Ending
one_frame f rest =
    if f.frame_type == mic_eos
    then ([], returned)
    else if not (f.frame_type == mic_pcm)
    then ([], raised unexpected_frame)
    else (f.payload ∷ rest.0, rest.1)

-- What the generator yields over the messages that it receives, and how it ends.
unfoldable pub mic_frames : List Received → List (List ℕ) × Ending
mic_frames [] = ([], waiting)
mic_frames (none ∷ ms) = ([], returned)
mic_frames (some raw ∷ ms) =
    let rest = mic_frames ms in
    elim (decode_frame raw) [ err x ↦ ([], raised (bad_frame x)) | ok f ↦ one_frame f rest ]
