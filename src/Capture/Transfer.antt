-- ===== src/Capture/Transfer.antt =====
-- A whole upload, from the device's messages to the capture (controller/em_capture_upload.py).
use echo_voice_satellite.Prelude.{
  ℕ, zero, suc, ◌+◌, ◌*◌, ◌/◌, ◌%◌, ◌^◌, ◌≤◌, ◌<◌, ◌≡◌, ◌≢◌, refl, sym, ap, subst, ◌∙◌, true,
  Option, none, some, List, [], ◌∷◌, ◌++◌, length, length-append, concat, append_nil, All, arith,
  if◌then◌else◌, String, nat_eq, string_eq, list_eq, list_beq_iff,
}
use mathlib.Core.List.{append_assoc}
use echo_voice_satellite.Prelude.Result.{Result, ok}
use echo_voice_satellite.Prelude.Dict.{get}
use echo_voice_satellite.Capture.{
  Receiver, CompletedCapture, new_receiver, half_word, full_word, begin_capture, add_pcm,
  end_capture, handle_frame, feed, capture_begin, capture_pcm, capture_end, max_metadata_bytes,
}
use echo_voice_satellite.Capture.Fields.{as_float, is_score, validate_metadata-as_float}
use echo_voice_satellite.Capture.Metadata.{
  Library, Object, object, CaptureError, validate_metadata, equals_int, frame_bytes, max_frames,
}

-- The messages of a device: the metadata, a frame with its number, and the totals with the digest.
abbrev pub begin_message : List ℕ → List ℕ
begin_message body = capture_begin ∷ 1 ∷ (length body / 256) ∷ (length body % 256) ∷ body

abbrev pub pcm_message : ℕ → List ℕ → List ℕ
pcm_message i chunk = capture_pcm ∷ (i / 256) ∷ (i % 256) ∷ chunk

abbrev pub pcm_messages : ℕ → List (List ℕ) → List (List ℕ)
pcm_messages i [] = []
pcm_messages i (c ∷ cs) = pcm_message i c ∷ pcm_messages (i + 1) cs

abbrev pub end_message : ℕ → ℕ → List ℕ → List ℕ
end_message n bytes digest =
    capture_end
    ∷ (n / 256)
    ∷ (n % 256)
    ∷ (bytes / 2 ^ 24)
    ∷ (bytes / 2 ^ 16 % 256)
    ∷ (bytes / 2 ^ 8 % 256)
    ∷ (bytes % 256)
    ∷ digest

-- The messages of a connection; what each of them completes, and the receiver behind them.
pub feed_all :
    Library
    → Receiver
    → List (List ℕ)
    → Receiver × List (Result CaptureError (Option CompletedCapture))
feed_all lib r [] = (r, [])
feed_all lib r (raw ∷ raws) =
    let (r', o) = feed lib r raw in let (r'', os) = feed_all lib r' raws in (r'', o ∷ os)

-- Nothing is completed, `n` times, and then a capture is.
abbrev pub last_of : ℕ → CompletedCapture → List (Result CaptureError (Option CompletedCapture))
last_of zero c = ok (some c) ∷ []
last_of (suc n) c = ok none ∷ last_of n c

feed-begin :
    (lib : Library) (body : List ℕ) (m v : Object)
    → 1 ≤ length body
    → length body ≤ max_metadata_bytes
    → lib.loads body ≡ object m
    → validate_metadata lib m ≡ ok v
    → feed lib new_receiver (begin_message body)
      ≡ (record new_receiver { metadata = some v }, ok none)
unfolding feed handle_frame begin_capture
feed-begin lib body m v l u p q =
    let n : half_word (length body / 256) (length body % 256) ≡ length body = omega arith in
    rw (n, p, feed, handle_frame, begin_capture, q) (ground arith)

feed-pcm :
    (lib : Library) (v : Object) (cs : List (List ℕ)) (c : List ℕ)
    → length c ≡ frame_bytes
    → length cs < max_frames
    → let n = length cs in
      feed lib (record { metadata = some v; chunks = cs; next_index = n }) (pcm_message n c)
      ≡ (record { metadata = some v; chunks = cs ++ c ∷ []; next_index = n + 1 }, ok none)
unfolding feed handle_frame add_pcm
feed-pcm lib v cs c l b =
    let n : half_word (length cs / 256) (length cs % 256) ≡ length cs = omega arith in
    rw (n, feed, handle_frame, add_pcm) (ground arith)

feed-end :
    (lib : Library) (v : Object) (c : List ℕ) (cs : List (List ℕ)) (i : ℕ)
    → length (c ∷ cs) ≤ max_frames
    → length (concat (c ∷ cs)) < 2 ^ 32
    → length (lib.md5 (concat (c ∷ cs))) ≡ 16
    → equals_int (get "actualPrerollMs" v) (length (c ∷ cs) * 80) ≡ true
    → let all = concat (c ∷ cs) in
      feed lib
        (record { metadata = some v; chunks = c ∷ cs; next_index = i })
        (end_message (length (c ∷ cs)) (length all) (lib.md5 all))
      ≡ (new_receiver, ok (some (record { metadata = v; pcm = all })))
unfolding feed handle_frame end_capture
feed-end lib v c cs i b small digest ms =
    let k = length (concat (c ∷ cs)) in
    let sum = lib.md5 (concat (c ∷ cs)) in
    let n : half_word (length (c ∷ cs) / 256) (length (c ∷ cs) % 256) ≡ length (c ∷ cs) =
      omega arith in
    let w : full_word (k / 2 ^ 24) (k / 2 ^ 16 % 256) (k / 2 ^ 8 % 256) (k % 256) ≡ k =
      omega arith in
    rw (n, w, feed, handle_frame, end_capture) (ground (arith, digest, ms, list_beq_iff sum sum))

-- A capture that a device may send: its frames, which its metadata count.
pub record IsCapture (lib : Library) (v : Object) (whole : List (List ℕ)) : Type 0 where
  pub framed : All (λ c. length c ≡ frame_bytes) whole
  pub some_frames : whole ≢ []
  pub few : length whole ≤ max_frames
  pub digest : length (lib.md5 (concat whole)) ≡ 16
  pub stated : equals_int (get "actualPrerollMs" v) (length whole * 80) ≡ true

length-framed :
    (cs : List (List ℕ))
    → All (λ c. length c ≡ frame_bytes) cs
    → length (concat cs) ≡ length cs * 2560
length-framed [] h = refl
length-framed (c ∷ cs) (one, h) =
    omega (arith, one, length-append c (concat cs), length-framed cs h)

abbrev pub captured : Object → List (List ℕ) → CompletedCapture
captured v whole = record { metadata = v; pcm = concat whole }

abbrev pub last_message : Library → List (List ℕ) → List ℕ
last_message lib whole = end_message (length whole) (length (concat whole)) (lib.md5 (concat whole))

pub feed-last :
    (lib : Library) (v : Object) (whole : List (List ℕ)) (i : ℕ)
    → IsCapture lib v whole
    → feed lib
        (record { metadata = some v; chunks = whole; next_index = i })
        (last_message lib whole)
      ≡ (new_receiver, ok (some (captured v whole)))
feed-last lib v [] i h = absurd (h.some_frames refl)
feed-last lib v (c ∷ cs) i h =
    let size = length-framed (c ∷ cs) h.framed in
    feed-end lib v c cs i h.few (omega (arith, size, h.few)) h.digest h.stated

module _ (lib : Library) (v : Object) (whole : List (List ℕ)) (h : IsCapture lib v whole) where
  -- The frames and the end, to a receiver that has the frames before them.
  feed-rest :
      (cs ds : List (List ℕ))
      → cs ++ ds ≡ whole
      → All (λ c. length c ≡ frame_bytes) ds
      → feed_all lib
          (record { metadata = some v; chunks = cs; next_index = length cs })
          (pcm_messages (length cs) ds ++ last_message lib whole ∷ [])
        ≡ (new_receiver, last_of (length ds) (captured v whole))
  unfolding feed_all
  feed-rest cs [] e f =
      let q : cs ≡ whole = sym (append_nil cs) ∙ e in
      rw q (ap (λ r. (r.0, r.1 ∷ [])) (feed-last lib v whole (length whole) h))
  feed-rest cs (d ∷ ds) e (one, f) =
      let r : Receiver = record { metadata = some v; chunks = cs; next_index = length cs } in
      let now =
        feed-pcm lib v cs d one (omega (arith, h.few, ap length e, length-append cs (d ∷ ds))) in
      let next = length-append cs (d ∷ []) in
      let q = append_assoc cs (d ∷ []) ds ∙ e in
      rw now (
        ap (λ k. (k.0, ok none ∷ k.1))
          (subst
            (λ k.
              feed_all lib (record { metadata = some v; chunks = cs ++ d ∷ []; next_index = k })
                (pcm_messages k ds ++ last_message lib whole ∷ [])
              ≡ (new_receiver, last_of (length ds) (captured v whole)))
            next (feed-rest (cs ++ d ∷ []) ds q f)))

-- An upload arrives: a device sends metadata that the parser accepts, then the frames that they count, 62 at
-- most, then the totals with the digest. A new receiver completes nothing before the last message, which
-- completes the capture, and the receiver is new again: the audio is as it was sent, and so is every field of the
-- metadata, but that an integer among the three scores is the float of the same value.
pub upload-arrives :
    (lib : Library) (body : List ℕ) (m v : Object) (whole : List (List ℕ)) (key : String)
    → 1 ≤ length body
    → length body ≤ max_metadata_bytes
    → lib.loads body ≡ object m
    → validate_metadata lib m ≡ ok v
    → IsCapture lib v whole
    → (feed_all lib new_receiver
          (begin_message body ∷ (pcm_messages 0 whole ++ last_message lib whole ∷ []))
        ≡ (new_receiver, ok none ∷ last_of (length whole) (captured v whole)))
      × (get key v ≡ (if is_score key then as_float (get key m) else get key m))
unfolding feed_all
upload-arrives lib body m v whole key l u p q h = (
  rw (feed-begin lib body m v l u p q)
      (ap (λ k. (k.0, ok none ∷ k.1)) (feed-rest lib v whole h [] whole refl h.framed)),
  validate_metadata-as_float lib m v key q,
)
