-- ===== src/TurnEngine/Upsampler/Values.antt =====
-- The samples of the upsampled speech (controller/em_turn_engine.py): nothing overflows, and every sample
-- of the input is in its place.
use echo_voice_satellite.Prelude.{
  ℕ, ◌*◌, ◌/◌, ◌%◌, ◌<◌, ◌≡◌, refl, ap, subst, none, some, List, [], ◌∷◌, ◌++◌, length, All, arith,
  Option-cases, inl, inr,
}
use echo_voice_satellite.Prelude.Int.{ℤ, pos, negsuc, ◌+ℤ◌, half}
use echo_voice_satellite.TurnEngine.Upsampler.{
  int16, word16, samples, to_bytes, interpolate, last_of, upsample_24_to_48,
}
use echo_voice_satellite.TurnEngine.Upsampler.Laws.{tail, upsample_eq}

abbrev pub IsInt16 : ℤ → Type 0
IsInt16 (pos n) = n < 32768
IsInt16 (negsuc n) = n < 32768

abbrev pub IsByte : ℕ → Type 0
IsByte b = b < 256

int16-IsInt16 : (l h : ℕ) → IsByte l → IsByte h → IsInt16 (int16 l h)
int16-IsInt16 l h p q = ground arith

int16-word16 : (x : ℤ) → IsInt16 x → int16 (word16 x % 256) (word16 x / 256) ≡ x
int16-word16 (pos n) h = ground arith
int16-word16 (negsuc n) h = ground arith

half-IsInt16 : (a b : ℤ) → IsInt16 a → IsInt16 b → IsInt16 (half (a +ℤ b))
unfolding half ◌+ℤ◌
half-IsInt16 (pos a) (pos b) h k = ground arith
half-IsInt16 (pos a) (negsuc b) h k = ground arith
half-IsInt16 (negsuc a) (pos b) h k = ground arith
half-IsInt16 (negsuc a) (negsuc b) h k = ground arith

samples-to_bytes : (xs : List ℤ) → All IsInt16 xs → samples (to_bytes xs) ≡ some xs
unfolding samples to_bytes
samples-to_bytes [] h = refl
samples-to_bytes (x ∷ xs) (one, h) = rw (samples-to_bytes xs h, samples, int16-word16 x one) refl

samples-IsInt16 : (c : List ℕ) (xs : List ℤ) → All IsByte c → samples c ≡ some xs → All IsInt16 xs
unfolding samples
samples-IsInt16 [] xs h q = let e : [] ≡ xs = ground arith in subst (All IsInt16) e tt
samples-IsInt16 (l ∷ []) xs h q = cc
samples-IsInt16 (l ∷ u ∷ c) xs (p, (r, h)) q = elim (Option-cases (samples c)) [
  | inl e ↦ let wrong : ⊥ = ground (arith, e) in elim wrong [ ]
  | inr (ys, e) ↦
      let same : int16 l u ∷ ys ≡ xs = ground (arith, e) in
      subst (All IsInt16) same (int16-IsInt16 l u p r, samples-IsInt16 c ys h e)
]

abbrev pub evens : List ℤ → List ℤ
evens [] = []
evens (x ∷ []) = x ∷ []
evens (x ∷ y ∷ xs) = x ∷ evens xs

-- The samples that come out for `xs`.
abbrev pub doubled : List ℤ → List ℤ
doubled xs = interpolate xs ++ tail (last_of none xs)

evens-doubled : (xs : List ℤ) → evens (doubled xs) ≡ xs
unfolding interpolate last_of
evens-doubled [] = refl
evens-doubled (x ∷ []) = refl
evens-doubled (x ∷ y ∷ xs) = ap (λ r. x ∷ r) (evens-doubled (y ∷ xs))

doubled-IsInt16 : (xs : List ℤ) → All IsInt16 xs → All IsInt16 (doubled xs)
unfolding interpolate last_of
doubled-IsInt16 [] h = tt
doubled-IsInt16 (x ∷ []) (p, h) = (p, (p, tt))
doubled-IsInt16 (x ∷ y ∷ xs) (p, (q, h)) =
    (p, (half-IsInt16 x y p q, doubled-IsInt16 (y ∷ xs) (q, h)))

length-doubled : (xs : List ℤ) → length (doubled xs) ≡ 2 * length xs
unfolding interpolate last_of
length-doubled [] = refl
length-doubled (x ∷ []) = refl
length-doubled (x ∷ y ∷ xs) = omega (arith, length-doubled (y ∷ xs))

-- Upsampling bytes of whole samples gives samples that all fit 16 bits, so that none wraps around: twice as
-- many, and those at the even places are the samples of the input.
pub upsample-samples :
    (c : List ℕ) (xs : List ℤ)
    → All IsByte c
    → samples c ≡ some xs
    → (out : List ℕ) × (ys : List ℤ) × (upsample_24_to_48 c ≡ some out)
      × (samples out ≡ some ys)
      × (evens ys ≡ xs)
      × (length ys ≡ 2 * length xs)
      × All IsInt16 ys
upsample-samples c xs b q =
    let fits = doubled-IsInt16 xs (samples-IsInt16 c xs b q) in
    (
      to_bytes (doubled xs),
      doubled xs,
      upsample_eq c xs q,
      samples-to_bytes (doubled xs) fits,
      evens-doubled xs,
      length-doubled xs,
      fits,
    )
