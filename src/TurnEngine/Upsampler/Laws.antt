-- ===== src/TurnEngine/Upsampler/Laws.antt =====
-- Streaming the speech gives what upsampling it at once gives (controller/em_turn_engine.py).
use echo_voice_satellite.Prelude.{
  ℕ, ◌%◌, ◌≡◌, refl, sym, ap, ◌∙◌, none, some, List, [], ◌∷◌, ◌++◌, map, length, All, arith,
  Option-cases, inl, inr, concat,
}
use mathlib.Core.List.{append_assoc}
use echo_voice_satellite.Prelude.Int.{ℤ, ◌+ℤ◌, half}
use echo_voice_satellite.TurnEngine.Turn.{Chunk}
use echo_voice_satellite.TurnEngine.Upsampler.{
  int16, samples, to_bytes, interpolate, Held, with_held, last_of, process_samples, process, flush,
  upsample_24_to_48, unless_empty, tts_chunks,
}

-- The samples that a flush sends.
abbrev pub tail : Held → List ℤ
tail none = []
tail (some x) = x ∷ x ∷ []

to_bytes-append : (xs ys : List ℤ) → to_bytes (xs ++ ys) ≡ to_bytes xs ++ to_bytes ys
unfolding to_bytes
to_bytes-append [] ys = refl
to_bytes-append (x ∷ xs) ys = rw (to_bytes-append xs ys) refl

samples-append :
    (a b : List ℕ) (xs ys : List ℤ)
    → samples a ≡ some xs
    → samples b ≡ some ys
    → samples (a ++ b) ≡ some (xs ++ ys)
unfolding samples
samples-append [] b xs ys p q = ground (arith, q)
samples-append (l ∷ []) b xs ys p q = cc
samples-append (l ∷ h ∷ a) b xs ys p q = elim (Option-cases (samples a)) [
  | inl e ↦ ground (arith, e)
  | inr (zs, e) ↦ ground (arith, e, samples-append a b zs ys e q)
]

interpolate-append :
    (h : Held) (xs ys : List ℤ)
    → interpolate (with_held h (xs ++ ys))
      ≡ interpolate (with_held h xs) ++ interpolate (with_held (last_of h xs) ys)
unfolding interpolate last_of
interpolate-append none [] ys = refl
interpolate-append (some z) [] ys = refl
interpolate-append none (x ∷ xs) ys = interpolate-append (some x) xs ys
interpolate-append (some z) (x ∷ xs) ys =
    ap (λ r. z ∷ half (z +ℤ x) ∷ r) (interpolate-append (some x) xs ys)

last_of-append : (h : Held) (xs ys : List ℤ) → last_of h (xs ++ ys) ≡ last_of (last_of h xs) ys
unfolding last_of
last_of-append h [] ys = refl
last_of-append h (x ∷ xs) ys = last_of-append (some x) xs ys

process_samples_eq :
    (h : Held) (xs : List ℤ) → process_samples h xs ≡ (last_of h xs, interpolate (with_held h xs))
unfolding process_samples last_of interpolate
process_samples_eq none [] = refl
process_samples_eq (some x) [] = refl
process_samples_eq h (x ∷ xs) = refl

unless_empty-concat :
    (x : List ℕ) (rest : List (List ℕ)) → concat (unless_empty x rest) ≡ x ++ concat rest
unless_empty-concat [] rest = refl
unless_empty-concat (x ∷ xs) rest = refl

flush_eq : (h : Held) → (flush h).1 ≡ to_bytes (tail h)
unfolding flush to_bytes
flush_eq none = refl
flush_eq (some x) = refl

-- The samples of whole payloads, one after the other.
abbrev pub ArePcm : List (List ℕ) → List ℤ → Type 0
ArePcm [] zs = zs ≡ []
ArePcm (c ∷ cs) zs = (xs ys : List ℤ) × (samples c ≡ some xs) × ArePcm cs ys × (zs ≡ xs ++ ys)

ArePcm-concat : (cs : List (List ℕ)) (zs : List ℤ) → ArePcm cs zs → samples (concat cs) ≡ some zs
unfolding samples
ArePcm-concat [] zs q = rw q refl
ArePcm-concat (c ∷ cs) zs (xs, ys, p, h, q) =
    rw q (samples-append c (concat cs) xs ys p (ArePcm-concat cs ys h))

process_eq :
    (h : Held) (c : List ℕ) (xs : List ℤ)
    → samples c ≡ some xs
    → process h c ≡ some (last_of h xs, to_bytes (interpolate (with_held h xs)))
unfolding process
process_eq h c xs p = rw (p, process) (ap (λ r. some (r.0, to_bytes r.1)) (process_samples_eq h xs))

-- `tts_chunks` past a chunk that numpy accepts.
chunk_step :
    (h : Held) (c : List ℕ) (xs : List ℤ) (cs : List Chunk) (outs : List (List ℕ))
    → samples c ≡ some xs
    → tts_chunks (last_of h xs) cs ≡ some outs
    → tts_chunks h (some c ∷ cs)
      ≡ some (unless_empty (to_bytes (interpolate (with_held h xs))) outs)
unfolding tts_chunks
chunk_step h c xs cs outs p q = rw (process_eq h c xs p, tts_chunks, q) refl

-- The bytes of a stretch and of what follows it are those of the two together.
parts :
    (h : Held) (xs ys : List ℤ)
    → to_bytes (interpolate (with_held h xs))
        ++ to_bytes (interpolate (with_held (last_of h xs) ys) ++ tail (last_of (last_of h xs) ys))
      ≡ to_bytes (interpolate (with_held h (xs ++ ys)) ++ tail (last_of h (xs ++ ys)))
parts h xs ys =
    let a = interpolate (with_held h xs) in
    let b = interpolate (with_held (last_of h xs) ys) in
    let t = tail (last_of (last_of h xs) ys) in
    sym (to_bytes-append a (b ++ t))
    ∙ ap to_bytes (sym (append_assoc a b t))
    ∙ ap (λ r. to_bytes (r ++ t)) (sym (interpolate-append h xs ys))
    ∙ ap (λ r. to_bytes (interpolate (with_held h (xs ++ ys)) ++ tail r))
        (sym (last_of-append h xs ys))

streams :
    (h : Held) (cs : List (List ℕ)) (zs : List ℤ) (rest : List Chunk)
    → ArePcm cs zs
    → (outs : List (List ℕ)) × (tts_chunks h (map some cs ++ (none ∷ rest)) ≡ some outs)
      × (concat outs ≡ to_bytes (interpolate (with_held h zs) ++ tail (last_of h zs)))
unfolding tts_chunks flush to_bytes interpolate last_of
streams none [] zs rest q = rw q ([], refl, refl)
streams (some x) [] zs rest q = rw q (unless_empty (flush (some x)).1 [], refl, refl)
streams h (c ∷ cs) zs rest (xs, ys, p, pcm, q) =
    let (outs, e, sum) = streams (last_of h xs) cs ys rest pcm in
    (
      unless_empty (to_bytes (interpolate (with_held h xs))) outs,
      chunk_step h c xs (map some cs ++ (none ∷ rest)) outs p e,
      unless_empty-concat (to_bytes (interpolate (with_held h xs))) outs
          ∙ ap (λ r. to_bytes (interpolate (with_held h xs)) ++ r) sum
          ∙ parts h xs ys
          ∙ ap (λ r. to_bytes (interpolate (with_held h r) ++ tail (last_of h r))) (sym q),
    )

abbrev pub IsWhole : List ℕ → Type 0
IsWhole c = length c % 2 ≡ 0

samples_whole : (c : List ℕ) → IsWhole c → (xs : List ℤ) × (samples c ≡ some xs)
unfolding samples
samples_whole [] h = ([], refl)
samples_whole (l ∷ []) h = let odd : ⊥ = omega arith in elim odd [ ]
samples_whole (l ∷ u ∷ c) h =
    let (xs, e) = samples_whole c (omega arith) in (int16 l u ∷ xs, rw (e, samples) refl)

whole_chunks : (cs : List (List ℕ)) → All IsWhole cs → (zs : List ℤ) × ArePcm cs zs
whole_chunks [] h = ([], refl)
whole_chunks (c ∷ cs) (one, h) =
    let (xs, p) = samples_whole c one in
    let (ys, q) = whole_chunks cs h in (xs ++ ys, (xs, ys, p, q, refl))

pub upsample_eq :
    (c : List ℕ) (zs : List ℤ)
    → samples c ≡ some zs
    → upsample_24_to_48 c ≡ some (to_bytes (interpolate zs ++ tail (last_of none zs)))
unfolding upsample_24_to_48
upsample_eq c zs p =
    rw (process_eq none c zs p, upsample_24_to_48)
      (ap (λ r. some (to_bytes (interpolate zs) ++ r)) (flush_eq (last_of none zs))
        ∙ ap some (sym (to_bytes-append (interpolate zs) (tail (last_of none zs)))))

-- However the speech is cut into chunks of whole samples, what is streamed of it up to the end mark is, put
-- together, what upsampling the whole of it at once gives.
pub tts_chunks-upsample :
    (cs : List (List ℕ)) (rest : List Chunk)
    → All IsWhole cs
    → (outs : List (List ℕ)) × (tts_chunks none (map some cs ++ (none ∷ rest)) ≡ some outs)
      × (upsample_24_to_48 (concat cs) ≡ some (concat outs))
tts_chunks-upsample cs rest h =
    let (zs, pcm) = whole_chunks cs h in
    let (outs, e, sum) = streams none cs zs rest pcm in
    (outs, e, upsample_eq (concat cs) zs (ArePcm-concat cs zs pcm) ∙ ap some (sym sum))
