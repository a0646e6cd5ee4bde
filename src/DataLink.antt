-- ===== src/DataLink.antt =====
-- The data connection of a device in controller/em_controller.py: the messages of `handle_data`, which carry
-- captures and the microphone, and `_accept_capture_upload`. Bytes are numbers.
pub mod Latest
pub mod Consent
mod Tests
use echo_voice_satellite.Prelude.{
  ℕ, ◌+◌, String, Bool, true, false, not, ◌&&◌, ◌||◌, Option, none, some, List, [], ◌∷◌, ◌++◌,
  length, drop, ltb, is_given, if◌then◌else◌, ◌==◌, nat_eq, string_eq,
}
use echo_voice_satellite.Prelude.Result.{Result, ok, err}
use echo_voice_satellite.TurnEngine.Mic.{Item, pcm, mark, vad_sentinel_timeout}
use echo_voice_satellite.Capture.{
  Receiver, CompletedCapture, new_receiver, capture_begin, capture_pcm, capture_end, feed,
}
use echo_voice_satellite.Capture.Metadata.{Library, CaptureError}

abbrev pub mic_frame_type : ℕ
mic_frame_type = 1

abbrev pub vad_end_type : ℕ
vad_end_type = 4

abbrev pub vad_no_speech_timeout_type : ℕ
vad_no_speech_timeout_type = 5

abbrev pub vad_sentinel_end : String
vad_sentinel_end = "vad_end"

abbrev pub max_queue : ℕ
max_queue = 256

-- What the handler reads of its device, with the receiver of the connection. `oww_paused` is set while a turn
-- listens.
pub record Link : Type 0 where
  pub save_wake_captures : Bool
  pub save_stop_captures : Bool
  pub oww_paused : Bool
  pub voice_queue : List Item
  pub capture_receiver : Receiver

-- A full queue loses its oldest item to a new one.
abbrev pub put_latest : List Item → Item → List Item
put_latest q i = if ltb (length q) max_queue then q ++ i ∷ [] else drop 1 q ++ i ∷ []

abbrev pub is_capture : ℕ → Bool
is_capture t = t == capture_begin || t == capture_pcm || t == capture_end

-- What a message of the microphone holds: audio behind the header of three bytes, or a mark.
abbrev pub mic_item : List ℕ → Option Item
mic_item (t ∷ a ∷ b ∷ x ∷ []) =
    if not (t == mic_frame_type)
    then none
    else if x == vad_no_speech_timeout_type
    then some (mark (some vad_sentinel_timeout))
    else if x == vad_end_type
    then some (mark (some vad_sentinel_end))
    else some (pcm (x ∷ []))
mic_item (t ∷ a ∷ b ∷ x ∷ y ∷ rest) =
    if t == mic_frame_type then some (pcm (x ∷ y ∷ rest)) else none
mic_item _ = none

abbrev pub queued : Link → Option Item → Link
queued l none = l
queued l (some i) =
    if l.oww_paused then record l { voice_queue = put_latest l.voice_queue i } else l

abbrev pub completed : Result CaptureError (Option CompletedCapture) → Option CompletedCapture
completed (err e) = none
completed (ok c) = c

-- A message, which is bytes or a text; what a capture completes is returned. An exception of the receiver is
-- logged.
unfoldable pub on_message : Library → Link → Option (List ℕ) → Link × Option CompletedCapture
on_message lib l none = (l, none)
on_message lib l (some []) = (l, none)
on_message lib l (some (t ∷ rest)) =
    let (r, o) = feed lib l.capture_receiver (t ∷ rest) in
    if is_capture t
    then (if not (l.save_wake_captures || l.save_stop_captures)
        then (record l { capture_receiver = new_receiver }, none)
        else (record l { capture_receiver = r }, completed o))
    else (queued l (mic_item (t ∷ rest)), none)

-- What `_accept_capture_upload` reads of the device at one moment: the keys and the digest of its models, its
-- consents, and whether it and the connection are still the ones that are registered.
pub record Identity : Type 0 where
  pub wake_model : String
  pub stop_model : Option String
  pub wake_md5 : Option String
  pub stop_md5 : Option String
  pub save_wake_captures : Bool
  pub save_stop_captures : Bool
  pub is_current : Bool

pub data Verdict : Type 0 where
  refused not_stored discarded kept acknowledged : Verdict

abbrev same_text : Option String → String → Bool
same_text none s = false
same_text (some t) s = t == s

-- Which model a capture is of: the wake model's first.
pub data Owner : Type 0 where
  wake stop nobody : Owner

abbrev pub owner_of : Identity → String → Owner
owner_of d model =
    if model == d.wake_model
    then wake
    else if same_text d.stop_model model && not (same_text d.stop_model "")
    then stop
    else nobody

abbrev pub consents : Identity → Owner → Bool
consents d wake = d.save_wake_captures
consents d stop = d.save_stop_captures
consents d nobody = false

abbrev pub checksum : Identity → Owner → Option String
checksum d wake = d.wake_md5
checksum d stop = d.stop_md5
checksum d nobody = none

-- The consent of a model of which the kind was settled before the capture was stored.
abbrev pub still_consents : Identity → Owner → Bool
still_consents d wake = d.save_wake_captures
still_consents d _ = d.save_stop_captures

-- What `save_uploaded` returns: a name, if it stores the capture, and whether it made the file.
abbrev pub Stored : Type 0
Stored = Option (String × Bool)

after_store : Identity → Owner → Bool → Verdict
after_store later o made =
    if not (still_consents later o)
    then (if made then discarded else kept)
    else if later.is_current
    then acknowledged
    else kept

-- `_accept_capture_upload`, of a capture of a model with a digest, at a device as it is before and as it is
-- after the capture is stored
unfoldable pub accept_capture_upload : Identity → Identity → String → String → Stored → Verdict
unfolding after_store
accept_capture_upload now later model md5 stored =
    let o = owner_of now model in
    if not (consents now o) || not (same_text (checksum now o) md5) || not now.is_current
    then refused
    else elim stored [ none ↦ not_stored | some (name, made) ↦ after_store later o made ]
