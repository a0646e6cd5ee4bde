-- ===== src/Capture/Upload.antt =====
-- What holds of a receiver whatever a device sends (controller/em_capture_upload.py).
use echo_voice_satellite.Prelude.{
  ℕ, ◌≤◌, ◌≡◌, refl, subst, none, List, [], ◌∷◌, length, length-append, All, All-append, Bool-cases,
  Option-cases, inl, inr, arith, ◌==◌, nat_eq, string_eq, list_eq, not, ◌||◌, leb, is_given,
}
use echo_voice_satellite.Prelude.Result.{ok, err, Result-cases}
use echo_voice_satellite.Capture.{
  Receiver, new_receiver, Fed, half_word, full_word, accept_metadata, begin_capture, add_pcm,
  end_capture, complete, handle_frame, feed,
}
use echo_voice_satellite.Capture.Metadata.{
  Library, Object, Parsed, malformed, other_value, object, validate_metadata, frame_bytes,
  max_frames,
}

-- A receiver has at most 62 frames, each of 80 ms, counts them, and has none outside a capture.
pub record IsReceiving (r : Receiver) : Type 0 where
  pub counted : r.next_index ≡ length r.chunks
  pub bounded : r.next_index ≤ max_frames
  pub framed : All (λ c. length c ≡ frame_bytes) r.chunks
  pub idle : r.metadata ≡ none → r.chunks ≡ []

pub new_receiver-IsReceiving : IsReceiving new_receiver
new_receiver-IsReceiving = record {
  counted = refl;
  bounded = omega arith;
  framed = tt;
  idle = λ h. refl;
}

-- What a method leaves when it returns.
abbrev Leaves : Fed → Type 0
Leaves (err e) = Unit
Leaves (ok p) = IsReceiving p.0

Leaves-accept :
    (lib : Library) (r : Receiver) (p : Parsed) → IsReceiving r → Leaves (accept_metadata lib r p)
Leaves-accept lib r malformed h = tt
Leaves-accept lib r other_value h = tt
Leaves-accept lib r (object m) h = elim (Result-cases (validate_metadata lib m)) [
  | inl (e, q) ↦ rw q tt
  | inr (v, q) ↦
      rw q (record { counted = h.counted; bounded = h.bounded; framed = h.framed; idle = λ z. cc })
]

Leaves-begin :
    (lib : Library) (r : Receiver) (raw : List ℕ) → IsReceiving r → Leaves (begin_capture lib r raw)
unfolding begin_capture
Leaves-begin lib r (t ∷ v ∷ a ∷ b ∷ body) h = ground (arith, Leaves-accept lib r (lib.loads body) h)
Leaves-begin lib r [] h = tt
Leaves-begin lib r (t ∷ []) h = tt
Leaves-begin lib r (t ∷ v ∷ []) h = tt
Leaves-begin lib r (t ∷ v ∷ a ∷ []) h = tt

Leaves-pcm : (r : Receiver) (raw : List ℕ) → IsReceiving r → Leaves (add_pcm r raw)
unfolding add_pcm
Leaves-pcm r (t ∷ a ∷ b ∷ payload) h =
    elim (Bool-cases (not (is_given r.metadata) || not (length payload == frame_bytes))) [
      | inl bad ↦ ground (arith, bad)
      | inr good ↦
          elim (Bool-cases
            (not (half_word a b == r.next_index) || leb max_frames (half_word a b))) [
              | inl bad ↦ ground (arith, good, bad)
              | inr next ↦
                  rw (good, next, add_pcm)
                    (record {
                      counted = omega (arith, h.counted, length-append r.chunks (payload ∷ []));
                      bounded = ground arith;
                      framed =
                          All-append (λ c. length c ≡ frame_bytes) r.chunks (payload ∷ []) h.framed
                            (ground arith, tt);
                      idle = λ z. let wrong : ⊥ = ground arith in elim wrong [ ];
                    })
            ]
    ]
Leaves-pcm r [] h = tt
Leaves-pcm r (t ∷ []) h = tt
Leaves-pcm r (t ∷ a ∷ []) h = tt

Leaves-complete :
    (lib : Library) (r : Receiver) (m : Object) (chunks bytes : ℕ) (digest : List ℕ)
    → Leaves (complete lib r m chunks bytes digest)
Leaves-complete lib r m chunks bytes digest = ground (arith, new_receiver-IsReceiving)

Leaves-end : (lib : Library) (r : Receiver) (raw : List ℕ) → Leaves (end_capture lib r raw)
unfolding end_capture
Leaves-end lib r (t ∷ a ∷ b ∷ c ∷ d ∷ e ∷ f ∷ digest) = elim (Option-cases r.metadata) [
  | inl q ↦ ground (arith, q)
  | inr (m, q) ↦
      ground (arith, q, Leaves-complete lib r m (half_word a b) (full_word c d e f) digest)
]
Leaves-end lib r [] = tt
Leaves-end lib r (t ∷ []) = tt
Leaves-end lib r (t ∷ a ∷ []) = tt
Leaves-end lib r (t ∷ a ∷ b ∷ []) = tt
Leaves-end lib r (t ∷ a ∷ b ∷ c ∷ []) = tt
Leaves-end lib r (t ∷ a ∷ b ∷ c ∷ d ∷ []) = tt
Leaves-end lib r (t ∷ a ∷ b ∷ c ∷ d ∷ e ∷ []) = tt

Leaves-frame :
    (lib : Library) (r : Receiver) (raw : List ℕ) → IsReceiving r → Leaves (handle_frame lib r raw)
unfolding handle_frame
Leaves-frame lib r [] h = tt
Leaves-frame lib r (t ∷ rest) h =
    ground (
      arith,
      Leaves-begin lib r (t ∷ rest) h,
      Leaves-pcm r (t ∷ rest) h,
      Leaves-end lib r (t ∷ rest),
    )

-- Whatever message a device sends, a receiver stays one: it holds no more than 62 frames of 80 ms, counted, and
-- none outside a capture.
pub feed-IsReceiving :
    (lib : Library) (r : Receiver) (raw : List ℕ) → IsReceiving r → IsReceiving (feed lib r raw).0
unfolding feed
feed-IsReceiving lib r raw h = elim (Result-cases (handle_frame lib r raw)) [
  | inl (e, q) ↦ rw (q, feed) new_receiver-IsReceiving
  | inr (p, q) ↦ rw (q, feed) (subst Leaves q (Leaves-frame lib r raw h))
]
