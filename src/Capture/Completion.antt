-- ===== src/Capture/Completion.antt =====
-- What a capture that a receiver hands on has been checked for (controller/em_capture_upload.py).
use echo_voice_satellite.Prelude.{
  ℕ, ◌*◌, ◌≡◌, ◌⊎◌, refl, subst, true, none, some, List, [], ◌∷◌, length, concat, drop, Bool-cases,
  Option-cases, inl, inr, arith, ◌==◌, nat_eq, string_eq, list_eq, list_beq_iff,
}
use echo_voice_satellite.Prelude.Result.{ok, err, Result-cases}
use echo_voice_satellite.Prelude.Dict.{get}
use echo_voice_satellite.Capture.{
  Receiver, CompletedCapture, new_receiver, Fed, half_word, full_word, begin_capture, add_pcm,
  end_capture, complete, handle_frame, feed,
}
use echo_voice_satellite.Capture.Metadata.{
  Library, Object, Parsed, malformed, other_value, object, validate_metadata, equals_int,
}

Parsed-cases : (p : Parsed) → (p ≡ malformed) ⊎ (p ≡ other_value) ⊎ ((m : Object) × (p ≡ object m))
Parsed-cases malformed = inl refl
Parsed-cases other_value = inr (inl refl)
Parsed-cases (object m) = inr (inr (m, refl))

-- What a method that completes a capture has checked.
abbrev Checked : Library → Receiver → List ℕ → Fed → Type 0
Checked lib r raw (err e) = Unit
Checked lib r raw (ok (r', none)) = Unit
Checked lib r raw (ok (r', some c)) =
    (r' ≡ new_receiver)
    × (r.metadata ≡ some c.metadata)
    × (c.pcm ≡ concat r.chunks)
    × (lib.md5 c.pcm ≡ drop 7 raw)
    × (equals_int (get "actualPrerollMs" c.metadata) (length r.chunks * 80) ≡ true)

Checked-complete :
    (lib : Library) (r : Receiver) (m : Object) (t a b c d e f : ℕ) (digest : List ℕ)
    → r.metadata ≡ some m
    → Checked lib r
        (t ∷ a ∷ b ∷ c ∷ d ∷ e ∷ f ∷ digest)
        (complete lib r m (half_word a b) (full_word c d e f) digest)
Checked-complete lib r m t a b c d e f digest q =
    elim (Bool-cases (half_word a b == length r.chunks)) [
      | inr other ↦ ground (arith, other)
      | inl counted ↦
          let n : half_word a b ≡ length r.chunks = ground arith in
          rw n (ground (arith, q, list_beq_iff (lib.md5 (concat r.chunks)) digest))
    ]

Checked-begin :
    (lib : Library) (r : Receiver) (raw : List ℕ) → Checked lib r raw (begin_capture lib r raw)
unfolding begin_capture
Checked-begin lib r (t ∷ v ∷ a ∷ b ∷ body) = elim (Parsed-cases (lib.loads body)) [
  | inl q ↦ ground (arith, q)
  | inr (inl q) ↦ ground (arith, q)
  | inr (inr (m, q)) ↦ elim (Result-cases (validate_metadata lib m)) [
    | inl (e, z) ↦ ground (arith, q, z)
    | inr (w, z) ↦ ground (arith, q, z)
  ]
]
Checked-begin lib r [] = tt
Checked-begin lib r (t ∷ []) = tt
Checked-begin lib r (t ∷ v ∷ []) = tt
Checked-begin lib r (t ∷ v ∷ a ∷ []) = tt

Checked-pcm : (lib : Library) (r : Receiver) (raw : List ℕ) → Checked lib r raw (add_pcm r raw)
unfolding add_pcm
Checked-pcm lib r (t ∷ a ∷ b ∷ payload) = ground arith
Checked-pcm lib r [] = tt
Checked-pcm lib r (t ∷ []) = tt
Checked-pcm lib r (t ∷ a ∷ []) = tt

Checked-end :
    (lib : Library) (r : Receiver) (raw : List ℕ) → Checked lib r raw (end_capture lib r raw)
unfolding end_capture
Checked-end lib r (t ∷ a ∷ b ∷ c ∷ d ∷ e ∷ f ∷ digest) = elim (Option-cases r.metadata) [
  | inl q ↦ ground (arith, q)
  | inr (m, q) ↦ ground (arith, q, Checked-complete lib r m t a b c d e f digest q)
]
Checked-end lib r [] = tt
Checked-end lib r (t ∷ []) = tt
Checked-end lib r (t ∷ a ∷ []) = tt
Checked-end lib r (t ∷ a ∷ b ∷ []) = tt
Checked-end lib r (t ∷ a ∷ b ∷ c ∷ []) = tt
Checked-end lib r (t ∷ a ∷ b ∷ c ∷ d ∷ []) = tt
Checked-end lib r (t ∷ a ∷ b ∷ c ∷ d ∷ e ∷ []) = tt

Checked-frame :
    (lib : Library) (r : Receiver) (raw : List ℕ) → Checked lib r raw (handle_frame lib r raw)
unfolding handle_frame
Checked-frame lib r [] = tt
Checked-frame lib r (t ∷ rest) = ground (
  arith,
  Checked-begin lib r (t ∷ rest),
  Checked-pcm lib r (t ∷ rest),
  Checked-end lib r (t ∷ rest),
)

-- A capture is handed on only when it is whole: it is the metadata that the receiver accepted and the frames
-- that it got, the digest that the message carries is that of its audio, its length is the one that the metadata
-- states, and the receiver is then new.
pub feed-completes :
    (lib : Library) (r : Receiver) (raw : List ℕ) (c : CompletedCapture)
    → (feed lib r raw).1 ≡ ok (some c)
    → ((feed lib r raw).0 ≡ new_receiver)
      × (r.metadata ≡ some c.metadata)
      × (c.pcm ≡ concat r.chunks)
      × (lib.md5 c.pcm ≡ drop 7 raw)
      × (equals_int (get "actualPrerollMs" c.metadata) (length r.chunks * 80) ≡ true)
unfolding feed
feed-completes lib r raw c h = elim (Result-cases (handle_frame lib r raw)) [
  | inl (e, q) ↦ let wrong : ⊥ = ground (arith, q, h) in elim wrong [ ]
  | inr ((r', none), q) ↦ let wrong : ⊥ = ground (arith, q, h) in elim wrong [ ]
  | inr ((r', some c'), q) ↦
      let same : c' ≡ c = ground (arith, q, h) in
      let checked = subst (Checked lib r raw) q (Checked-frame lib r raw) in
      rw (q, feed, ← same) checked
]
