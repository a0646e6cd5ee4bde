-- ===== src/AudioFrame/Codec.antt =====
-- Encoding and decoding are inverse on the frames of the contract.
use echo_voice_satellite.Prelude.{
  nat_eq, ◌==◌, not, sym, ap, ◌∙◌, ℕ, ◌≤◌, ◌<◌, ◌^◌, ◌/◌, ◌%◌, ◌≡◌, List, [], ◌∷◌, ◌++◌, All, arith,
  refl,
}
use echo_voice_satellite.Prelude.Result.{Result, ok, err, ◌>>=◌, ◌>>◌, raise_if}
use echo_voice_satellite.AudioFrame.{
  FrameError, flags_set, AudioFrame, encode_frame, decode_frame, header, word,
}

word-header :
    (s : ℕ)
    → s ≤ 4294967295
    → word (s / 2 ^ 24 % 256) (s / 2 ^ 16 % 256) (s / 2 ^ 8 % 256) (s % 256) ≡ s
word-header s h = omega arith

header-word :
    (t a b c d : ℕ)
    → a < 256
    → b < 256
    → c < 256
    → d < 256
    → header t (word a b c d) ≡ t ∷ 0 ∷ a ∷ b ∷ c ∷ d ∷ []
header-word t a b c d ha hb hc hd = ground arith

encode_eq :
    (t s : ℕ) (p raw : List ℕ)
    → encode_frame t s p ≡ ok raw
    → (raw ≡ header t s ++ p) × (s ≤ 4294967295)
unfolding encode_frame
encode_eq t s p raw h = (ground arith, ground arith)

-- What the encoder accepts the decoder gives back: type, sequence and payload.
pub decode-encode :
    (t s : ℕ) (p raw : List ℕ)
    → encode_frame t s p ≡ ok raw
    → decode_frame raw ≡ ok (record { frame_type = t; sequence = s; payload = p })
unfolding decode_frame
decode-encode t s p raw h =
    let e = encode_eq t s p raw h in rw (e.0, decode_frame, word-header s e.1, h)

-- `decode_frame` behind its header, over the result of its call of `encode_frame`.
abbrev checked : ℕ → AudioFrame → Result FrameError (List ℕ) → Result FrameError AudioFrame
checked flags g r = do raise_if (not (flags == 0)) flags_set; _ ← r; ok g

checked_ok :
    (flags : ℕ) (g f : AudioFrame) (r : Result FrameError (List ℕ))
    → checked flags g r ≡ ok f
    → (flags ≡ 0) × (f ≡ g) × (raw : List ℕ) × (r ≡ ok raw)
checked_ok flags g f (ok raw) e = (ground arith, ground arith, raw, refl)
checked_ok flags g f (err x) e = ground arith

-- A received message of bytes that decodes is the encoding of the frame that it decodes to.
pub encode-decode :
    (raw : List ℕ) (f : AudioFrame)
    → All (λ b. b < 256) raw
    → decode_frame raw ≡ ok f
    → encode_frame f.frame_type f.sequence f.payload ≡ ok raw
unfolding decode_frame
encode-decode (t ∷ flags ∷ a ∷ b ∷ c ∷ d ∷ p) f h e =
    let s = word a b c d in
    let g : AudioFrame = record { frame_type = t; sequence = s; payload = p } in
    let r = checked_ok flags g f (encode_frame t s p) e in
    let q = h.1.1 in
    let bytes = header-word t a b c d q.0 q.1.0 q.1.1.0 q.1.1.1.0 in
    rw (r.1, r.3, (encode_eq t s p r.2 r.3).0)
      (ap (λ k. ok (k ++ p)) bytes ∙ ap (λ k. ok (t ∷ k ∷ a ∷ b ∷ c ∷ d ∷ p)) (sym r.0))
encode-decode [] f h e = cc
encode-decode _ f h e = cc
