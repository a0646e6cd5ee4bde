-- ===== src/Capture.antt =====
-- controller/em_capture_upload.py: the parser of the captures that a device uploads to train its wake word. JSON,
-- MD5 and the regular expressions are the record `Library`. Bytes are numbers.
pub mod Metadata
pub mod Upload
pub mod Completion
pub mod Fields
pub mod Transfer
mod Tests
use echo_voice_satellite.Prelude.{
  ℕ, ◌+◌, ◌*◌, ◌^◌, String, Bool, true, false, not, ◌&&◌, ◌||◌, Option, none, some, List, [], ◌∷◌,
  ◌++◌, length, concat, ltb, leb, is_given, if◌then◌else◌, ◌==◌, nat_eq, string_eq, list_eq,
}
use echo_voice_satellite.Prelude.Result.{Result, ok, err, ◌>>=◌, ◌>>◌, raise_if}
use echo_voice_satellite.Prelude.Dict.{get}
use echo_voice_satellite.AudioFrame.{is_empty}
use echo_voice_satellite.Capture.Metadata.{
  Json, int, Object, CaptureError, Library, Parsed, malformed, other_value, object,
  validate_metadata, invalid_json, not_an_object, equals_int, frame_bytes, max_frames,
}
use echo_voice_satellite.Capture.Metadata.CaptureError.{
  empty_frame, unknown_frame, invalid_begin, invalid_length, invalid_pcm, invalid_sequence,
  invalid_end, totals_mismatch, duration_mismatch, digest_mismatch,
}

abbrev pub capture_begin : ℕ
capture_begin = 16

abbrev pub capture_pcm : ℕ
capture_pcm = 17

abbrev pub capture_end : ℕ
capture_end = 18

abbrev pub max_metadata_bytes : ℕ
max_metadata_bytes = 4096

pub record CompletedCapture : Type 0 where
  pub metadata : Object
  pub pcm : List ℕ

pub record Receiver : Type 0 where
  pub metadata : Option Object
  pub chunks : List (List ℕ)
  pub next_index : ℕ

-- A new receiver, and one behind `reset`.
abbrev pub new_receiver : Receiver
new_receiver = record { metadata = none; chunks = []; next_index = 0 }

abbrev pub half_word : ℕ → ℕ → ℕ
half_word a b = a * 256 + b

abbrev pub full_word : ℕ → ℕ → ℕ → ℕ → ℕ
full_word a b c d = half_word a b * 2 ^ 16 + half_word c d

-- What a method leaves and returns.
abbrev pub Fed : Type 0
Fed = Result CaptureError (Receiver × Option CompletedCapture)

abbrev pub accept_metadata : Library → Receiver → Parsed → Fed
accept_metadata lib r malformed = err invalid_json
accept_metadata lib r other_value = err not_an_object
accept_metadata lib r (object m) = do
  v ← validate_metadata lib m
  ok (record r { metadata = some v }, none)

unfoldable pub begin_capture : Library → Receiver → List ℕ → Fed
begin_capture lib r (type ∷ version ∷ a ∷ b ∷ body) = do
  raise_if (is_given r.metadata || not (version == 1)) invalid_begin
  raise_if
      (half_word a b == 0
        || ltb max_metadata_bytes (half_word a b)
        || not (length body == half_word a b))
      invalid_length
  accept_metadata lib r (lib.loads body)
begin_capture lib r _ = err invalid_begin

unfoldable pub add_pcm : Receiver → List ℕ → Fed
add_pcm r (type ∷ a ∷ b ∷ payload) = do
  raise_if (not (is_given r.metadata) || not (length payload == frame_bytes)) invalid_pcm
  raise_if (not (half_word a b == r.next_index) || leb max_frames (half_word a b)) invalid_sequence
  ok (record r { chunks = r.chunks ++ payload ∷ []; next_index = r.next_index + 1 }, none)
add_pcm r _ = err invalid_pcm

abbrev has_none : List (List ℕ) → Bool
has_none [] = true
has_none (c ∷ cs) = false

-- The check of the totals, and the capture.
abbrev pub complete : Library → Receiver → Object → ℕ → ℕ → List ℕ → Fed
complete lib r m chunks bytes digest = do
  raise_if (not (chunks == length r.chunks) || not (bytes == length (concat r.chunks)))
      totals_mismatch
  raise_if (not (equals_int (get "actualPrerollMs" m) (chunks * 80))) duration_mismatch
  raise_if (not (lib.md5 (concat r.chunks) == digest)) digest_mismatch
  ok (new_receiver, some (record { metadata = m; pcm = concat r.chunks }))

unfoldable pub end_capture : Library → Receiver → List ℕ → Fed
end_capture lib r (type ∷ a ∷ b ∷ c ∷ d ∷ e ∷ f ∷ digest) = elim r.metadata [
  | none ↦ err invalid_end
  | some m ↦
      if not (length digest == 16) || has_none r.chunks
      then err invalid_end
      else complete lib r m (half_word a b) (full_word c d e f) digest
]
end_capture lib r _ = err invalid_end

-- `feed`, up to its `except`
unfoldable pub handle_frame : Library → Receiver → List ℕ → Fed
handle_frame lib r [] = err empty_frame
handle_frame lib r (type ∷ rest) =
    if type == capture_begin
    then begin_capture lib r (type ∷ rest)
    else if type == capture_pcm
    then add_pcm r (type ∷ rest)
    else if type == capture_end
    then end_capture lib r (type ∷ rest)
    else err unknown_frame

-- An exception resets the receiver, and goes on to the caller.
unfoldable pub feed :
    Library → Receiver → List ℕ → Receiver × Result CaptureError (Option CompletedCapture)
feed lib r raw = elim (handle_frame lib r raw) [
  | err e ↦ (new_receiver, err e)
  | ok (r', done) ↦ (r', ok done)
]
