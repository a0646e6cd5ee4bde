-- ===== src/Integration/Speech.antt =====
-- The conversion of Home Assistant's speech (`stream_result_to_audio` of
-- hacs/custom_components/echo_voice_satellite/tts_stream.py): what the ffmpeg process writes is cut into
-- frames of whole samples. The process and the task that feeds it are the record `Process`.
pub mod Pieces
pub mod Delivery
pub mod Ending
use echo_voice_satellite.Prelude.{
  ℕ, zero, suc, ◌+◌, ◌-◌, ◌%◌, min, Bool, true, false, not, Option, none, some, List, [], ◌∷◌, ◌++◌,
  length, take, drop, ltb, if◌then◌else◌, ◌==◌, nat_eq,
}
use echo_voice_satellite.Prelude.Result.{Result, ok, err}
use echo_voice_satellite.AudioFrame.{tts_frame_bytes, is_empty}
use echo_voice_satellite.Integration.{Channel, ChannelError, send_tts, send_tts_eos}

-- What the process does: what each read of its output returns, whether the feeder raises, and whether it
-- exits with 0.
pub record Process : Type 0 where
  pub reads : List (List ℕ)
  pub feeder_raises : Bool
  pub exits_zero : Bool

pub data SpeechError : Type 0 where
  limit_exceeded feeder_failed conversion_failed odd_payload : SpeechError
  protocol : ChannelError → SpeechError

pub record Speech : Type 0 where
  pub channel : Channel
  pub pending : List ℕ
  pub sent : ℕ

abbrev pub usable : List ℕ → ℕ
usable p = length p - length p % 2

-- An exception keeps what was done before it: the state, and the exception if there is one.
abbrev pub Done : Type 0
Done = Speech × Option SpeechError

abbrev pub forwarded : Speech → Result ChannelError Channel → Done
forwarded s (err x) = (s, some (protocol x))
forwarded s (ok c) = (record s { channel = c }, none)

-- One round of the inner loop.
unfoldable pub send_piece : ℕ → Speech → Done
send_piece max_bytes s =
    let n = min tts_frame_bytes (usable s.pending) in
    let pcm = take n s.pending in
    let s' : Speech = record s { pending = drop n s.pending; sent = s.sent + length pcm } in
    if ltb max_bytes s'.sent
    then (s', some limit_exceeded)
    else forwarded s' (send_tts s.channel pcm)

abbrev pub or_else : Done → Done → Done
or_else (s, none) rest = rest
or_else (s, some e) rest = (s, some e)

-- `while usable`, on fuel
unfoldable pub send_pieces : ℕ → ℕ → Speech → Done
send_pieces zero max_bytes s = (s, none)
send_pieces (suc fuel) max_bytes s =
    let first = send_piece max_bytes s in
    let rest = send_pieces fuel max_bytes first.0 in
    if usable s.pending == 0 then (s, none) else or_else first rest

-- A round takes a byte at least, so there are no more rounds than bytes.
abbrev pub send_usable : ℕ → Speech → Done
send_usable max_bytes s = send_pieces (length s.pending) max_bytes s

abbrev pub extend : Speech → List ℕ → Speech
extend s chunk = record s { pending = s.pending ++ chunk }

-- The loop over the reads, which ends at an empty one; a process whose reads are used up has closed its
-- output.
unfoldable pub send_reads : ℕ → List (List ℕ) → Speech → Done
send_reads max_bytes [] s = (s, none)
send_reads max_bytes (chunk ∷ reads) s =
    let first = send_usable max_bytes (extend s chunk) in
    let rest = send_reads max_bytes reads first.0 in
    if is_empty chunk then (s, none) else or_else first rest

abbrev pub closed : Speech → Result ChannelError Channel → Speech × Result SpeechError ℕ
closed s (err x) = (s, err (protocol x))
closed s (ok c) = (record s { channel = c }, ok s.sent)

-- What follows the loop.
abbrev pub finish : Process → Done → Speech × Result SpeechError ℕ
finish p (s, some e) = (s, err e)
finish p (s, none) =
    if p.feeder_raises
    then (s, err feeder_failed)
    else if not p.exits_zero
    then (s, err conversion_failed)
    else if not (is_empty s.pending)
    then (s, err odd_payload)
    else closed s (send_tts_eos s.channel)

abbrev pub max_tts_bytes : ℕ
max_tts_bytes = 43200000

unfoldable pub stream_result_to_audio : ℕ → Process → Channel → Speech × Result SpeechError ℕ
stream_result_to_audio max_bytes p c =
    finish p (send_reads max_bytes p.reads (record { channel = c; pending = []; sent = 0 }))
