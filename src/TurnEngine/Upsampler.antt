-- ===== src/TurnEngine/Upsampler.antt =====
-- `_StreamingUpsampler` and `_tts_chunks` of controller/em_turn_engine.py: speech at 24 kHz becomes 48 kHz,
-- chunk by chunk. A payload is bytes, two to a sample, low byte first; numpy refuses one of odd length.
pub mod Laws
pub mod Values
mod Tests
use echo_voice_satellite.Prelude.{
  ℕ, ◌+◌, ◌-◌, ◌*◌, ◌/◌, ◌%◌, Bool, true, false, Option, none, some, List, [], ◌∷◌, ◌++◌, ltb,
  if◌then◌else◌,
}
use echo_voice_satellite.Prelude.Int.{ℤ, pos, negsuc, ◌+ℤ◌, half}
use echo_voice_satellite.TurnEngine.Turn.{Chunk}

-- a sample of "<i2"
abbrev pub int16 : ℕ → ℕ → ℤ
int16 low high = let n = low + 256 * high in if ltb n 32768 then pos n else negsuc (65535 - n)

-- `np.frombuffer(payload, dtype="<i2")`
pub samples : List ℕ → Option (List ℤ)
samples [] = some []
samples (low ∷ []) = none
samples (low ∷ high ∷ payload) = elim (samples payload) [
  | none ↦ none
  | some xs ↦ some (int16 low high ∷ xs)
]

-- a sample modulo 2^16, as `astype(np.int16)` leaves it
abbrev pub word16 : ℤ → ℕ
word16 (pos n) = n % 65536
word16 (negsuc n) = 65535 - n % 65536

-- `.tobytes()`
pub to_bytes : List ℤ → List ℕ
to_bytes [] = []
to_bytes (x ∷ xs) = (word16 x % 256) ∷ (word16 x / 256) ∷ to_bytes xs

-- Each sample but the last, followed by its mean with the next.
pub interpolate : List ℤ → List ℤ
interpolate [] = []
interpolate (x ∷ []) = []
interpolate (x ∷ y ∷ xs) = x ∷ half (x +ℤ y) ∷ interpolate (y ∷ xs)

-- The sample that is held, `self._last`.
abbrev pub Held : Type 0
Held = Option ℤ

abbrev pub with_held : Held → List ℤ → List ℤ
with_held none xs = xs
with_held (some x) xs = x ∷ xs

pub last_of : Held → List ℤ → Held
last_of h [] = h
last_of h (x ∷ xs) = last_of (some x) xs

-- `process` on samples
pub process_samples : Held → List ℤ → Held × List ℤ
process_samples h [] = (h, [])
process_samples h (x ∷ xs) = (last_of h (x ∷ xs), interpolate (with_held h (x ∷ xs)))

pub process : Held → List ℕ → Option (Held × List ℕ)
process h payload = elim (samples payload) [
  | none ↦ none
  | some xs ↦ some ((process_samples h xs).0, to_bytes (process_samples h xs).1)
]

pub flush : Held → Held × List ℕ
flush none = (none, [])
flush (some x) = (none, to_bytes (x ∷ x ∷ []))

-- `_upsample_24_to_48`
pub upsample_24_to_48 : List ℕ → Option (List ℕ)
upsample_24_to_48 payload = elim (process none payload) [
  | none ↦ none
  | some (h, out) ↦ some (out ++ (flush h).1)
]

abbrev pub unless_empty : List ℕ → List (List ℕ) → List (List ℕ)
unless_empty [] rest = rest
unless_empty (x ∷ xs) rest = (x ∷ xs) ∷ rest

-- `_tts_chunks` from what its queue yields: the chunks that it yields, up to the end mark; `none` is the
-- error of a payload that numpy refuses. A queue that ends without the mark is one that it still waits for.
pub tts_chunks : Held → List Chunk → Option (List (List ℕ))
tts_chunks h [] = some []
tts_chunks h (none ∷ rest) = some (unless_empty (flush h).1 [])
tts_chunks h (some chunk ∷ rest) = elim (process h chunk) [
  | none ↦ none
  | some (h', out) ↦ elim (tts_chunks h' rest) [
    | none ↦ none
    | some outs ↦ some (unless_empty out outs)
  ]
]
