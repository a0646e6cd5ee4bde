-- ===== src/Capture/Fields.antt =====
-- What the parser keeps of the metadata of a capture (controller/em_capture_upload.py: validate_metadata).
use echo_voice_satellite.Prelude.{
  ℕ, ◌≡◌, sym, ap, ◌∙◌, true, Option, none, some, arith, Bool, false, not, ◌&&◌, Bool-cases, ◌==◌,
  ◌||◌, if◌then◌else◌, String, eq_iff, inl, inr, nat_eq, string_eq, list_eq,
}
use echo_voice_satellite.Prelude.Result.{Result, ok, err, ◌>>=◌, ◌>>◌, raise_if, Result-cases}
use echo_voice_satellite.Prelude.Dict.{get, put, get-put}
use echo_voice_satellite.Capture.Metadata.{
  Library, Object, CaptureError, is_text, invalid_id, invalid_model, invalid_checksum,
  invalid_format, invalid_framing, Json, int, real, Real, real_of, unit_real, null, other,
  not_finite, truth, text, number, check_scores, check_length, boolean, kind_of, invalid_barge,
  invalid_score, invalid_threshold, invalid_floor, below_threshold, outside_thresholds,
  is_activation, less, validate_metadata, equals_int, frame_bytes,
}

-- A number as the float that `_number` makes of it
abbrev pub as_float : Option Json → Option Json
as_float (some (int n)) = some (real (real_of n))
as_float o = o

abbrev pub is_score : String → Bool
is_score key = key == "score" || (key == "threshold" || key == "nearMissFloor")

unit-same :
    (x : Real) (e : CaptureError) (r : Real)
    → unit_real x e ≡ ok r
    → ◌≡◌ {A = Option Json} (some (real x)) (some (real r))
unit-same x e r h = ground arith

number-as_float :
    (o : Option Json) (e : CaptureError) (r : Real) → number o e ≡ ok r → as_float o ≡ some (real r)
number-as_float none e r h = cc
number-as_float (some null) e r h = cc
number-as_float (some other) e r h = cc
number-as_float (some not_finite) e r h = cc
number-as_float (some (truth b)) e r h = cc
number-as_float (some (text t)) e r h = cc
number-as_float (some (int n)) e r h = unit-same (real_of n) e r h
number-as_float (some (real x)) e r h = unit-same x e r h

checked_scores :
    (ra rb rc : Result CaptureError Real) (p q : Real → Real → Real → Bool) (e f : CaptureError)
    (x : Real × Real × Real)
    → (ra >>= λ a.
        rb >>= λ b. rc >>= λ c. raise_if (p a b c) e >> (raise_if (q a b c) f >> ok (a, b, c)))
      ≡ ok x
    → (ra ≡ ok x.0) × (rb ≡ ok x.1) × (rc ≡ ok x.2)
checked_scores (err i) rb rc p q e f x h = cc
checked_scores (ok a) (err i) rc p q e f x h = cc
checked_scores (ok a) (ok b) (err i) p q e f x h = cc
checked_scores (ok a) (ok b) (ok c) p q e f x h = elim (Bool-cases (p a b c)) [
  | inl t ↦ let wrong : ⊥ = ground arith in elim wrong [ ]
  | inr t ↦ elim (Bool-cases (q a b c)) [
    | inl u ↦ let wrong : ⊥ = ground arith in elim wrong [ ]
    | inr u ↦ (ground arith, ground arith, ground arith)
  ]
]

-- The three floats of a check are those of the metadata.
scores-as_float :
    (kind : String) (m : Object) (x : Real × Real × Real)
    → check_scores kind m ≡ ok x
    → (as_float (get "score" m) ≡ some (real x.0))
      × (as_float (get "threshold" m) ≡ some (real x.1))
      × (as_float (get "nearMissFloor" m) ≡ some (real x.2))
scores-as_float kind m x h =
    let (a, b, c) =
      checked_scores (number (get "score" m) invalid_score)
        (number (get "threshold" m) invalid_threshold)
        (number (get "nearMissFloor" m) invalid_floor) (λ a b c. is_activation kind && less a b)
        (λ a b c. not (is_activation kind) && not (less c a && less a b)) below_threshold
        outside_thresholds x h in
    (
      number-as_float (get "score" m) invalid_score x.0 a,
      number-as_float (get "threshold" m) invalid_threshold x.1 b,
      number-as_float (get "nearMissFloor" m) invalid_floor x.2 c,
    )

abbrev with_scores : Object → Real × Real × Real → Object
with_scores m x =
    put "nearMissFloor" (real x.2) (put "threshold" (real x.1) (put "score" (real x.0) m))

last :
    (d f : Bool) (ed ef : CaptureError) (l : Result CaptureError ℕ) (z : Result CaptureError Bool)
    (w v : Object)
    → (raise_if d ed >> (raise_if f ef >> (l >>= λ _. z >>= λ _. ok w))) ≡ ok v
    → w ≡ v
last true f ed ef l z w v h = cc
last false true ed ef l z w v h = cc
last false false ed ef (err i) z w v h = cc
last false false ed ef (ok n) (err i) w v h = cc
last false false ed ef (ok n) (ok b) w v h = cc

returned :
    (a b c d f : Bool) (ea eb ec ed ef : CaptureError) (k : Result CaptureError String)
    (scores : String → Result CaptureError (Real × Real × Real)) (l : Result CaptureError ℕ)
    (z : Result CaptureError Bool) (g : Real × Real × Real → Object) (v : Object)
    → (raise_if a ea
        >> (raise_if b eb
            >> (raise_if c ec
                >> (k >>= λ kind. scores kind >>= λ x.
                    raise_if d ed >> (raise_if f ef >> (l >>= λ _. z >>= λ _. ok (g x)))))))
      ≡ ok v
    → (kind : String) × (x : Real × Real × Real) × (scores kind ≡ ok x) × (g x ≡ v)
returned true b c d f ea eb ec ed ef k scores l z g v h = cc
returned false true c d f ea eb ec ed ef k scores l z g v h = cc
returned false false true d f ea eb ec ed ef k scores l z g v h = cc
returned false false false d f ea eb ec ed ef (err i) scores l z g v h = cc
returned false false false d f ea eb ec ed ef (ok kind) scores l z g v h =
    elim (Result-cases (scores kind)) [
      | inl (i, e) ↦ let wrong : ⊥ = ground arith in elim wrong [ ]
      | inr (x, e) ↦ (kind, x, e, last d f ed ef l z (g x) v (rw e at h))
    ]

kept_key :
    (m : Object) (x : Real × Real × Real) (key : String)
    → as_float (get "score" m) ≡ some (real x.0)
    → as_float (get "threshold" m) ≡ some (real x.1)
    → as_float (get "nearMissFloor" m) ≡ some (real x.2)
    → get key (with_scores m x) ≡ (if is_score key then as_float (get key m) else get key m)
kept_key m x key s t f =
    let one = put "score" (real x.0) m in
    let two = put "threshold" (real x.1) one in
    let q = get-put "nearMissFloor" key (real x.2) two in
    let r = get-put "threshold" key (real x.1) one in
    let w = get-put "score" key (real x.0) m in
    ground (
      arith,
      q,
      r,
      w,
      eq_iff "score" key,
      eq_iff "threshold" key,
      eq_iff "nearMissFloor" key,
      eq_iff key "score",
      eq_iff key "threshold",
      eq_iff key "nearMissFloor",
    )

-- What the parser keeps of the metadata: everything, with its three scores as floats.
pub validate_metadata-as_float :
    (lib : Library) (m v : Object) (key : String)
    → validate_metadata lib m ≡ ok v
    → get key v ≡ (if is_score key then as_float (get key m) else get key m)
unfolding validate_metadata
validate_metadata-as_float lib m v key h =
    let (kind, x, checked, same) =
      returned (not (is_text lib.is_id (get "captureId" m)))
        (not (is_text lib.is_model (get "model" m)))
        (not (is_text lib.is_checksum (get "classifierMd5" m)))
        (not (equals_int (get "sampleRate" m) 16000) || not (equals_int (get "sampleWidth" m) 2))
        (not (equals_int (get "channels" m) 1) || not (equals_int (get "frameBytes" m) frame_bytes))
        invalid_id invalid_model invalid_checksum invalid_format invalid_framing
        (kind_of (get "kind" m)) (λ k. check_scores k m) (check_length m)
        (boolean (get "bargeThresholdActive" m) invalid_barge) (with_scores m) v h in
    let (s, t, f) = scores-as_float kind m x checked in
    sym (ap (get key) same) ∙ kept_key m x key s t f
