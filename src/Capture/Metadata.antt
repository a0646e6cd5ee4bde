-- ===== src/Capture/Metadata.antt =====
-- `validate_metadata` of controller/em_capture_upload.py: what a capture says of itself.
use echo_voice_satellite.Prelude.{
  ℕ, ◌+◌, ◌*◌, String, Bool, true, false, not, ◌&&◌, ◌||◌, Option, none, some, List, [], ◌∷◌, ltb,
  leb, if◌then◌else◌, ◌==◌, nat_eq, string_eq, elem,
}
use echo_voice_satellite.Prelude.Int.{ℤ, pos, negsuc, int_eq}
use echo_voice_satellite.Prelude.Result.{Result, ok, err, ◌>>=◌, ◌>>◌, raise_if}
use echo_voice_satellite.Prelude.Dict.{Dict, get, put}

-- A finite float: a fraction, of a denominator that is not 0, with a sign.
pub record Real : Type 0 where
  pub minus : Bool
  pub num : ℕ
  pub den : ℕ

-- A value of JSON as Python reads it: a float may be NaN or infinite; `other` is a list or an object.
pub data Json : Type 0 where
  null other not_finite : Json
  truth : Bool → Json
  int : ℤ → Json
  real : Real → Json
  text : String → Json

abbrev pub Object : Type 0
Object = Dict String Json

-- What `json.loads` makes of bytes, if it makes anything.
pub data Parsed : Type 0 where
  malformed other_value : Parsed
  object : Object → Parsed

-- The libraries: JSON, MD5, and the three regular expressions.
pub record Library : Type 0 where
  pub loads : List ℕ → Parsed
  pub md5 : List ℕ → List ℕ
  pub is_id : String → Bool
  pub is_model : String → Bool
  pub is_checksum : String → Bool

-- One constructor for each message of `CaptureProtocolError`; `unhashable` is the `TypeError` of a kind that is
-- a list or an object.
pub data CaptureError : Type 0 where
  not_an_object invalid_id invalid_model invalid_checksum unhashable invalid_kind : CaptureError
  invalid_score invalid_threshold invalid_floor below_threshold outside_thresholds : CaptureError
  invalid_format invalid_framing invalid_activation invalid_requested invalid_actual : CaptureError
  invalid_completeness inconsistent invalid_barge : CaptureError
  empty_frame unknown_frame invalid_begin invalid_length invalid_json invalid_pcm invalid_sequence :
      CaptureError
  invalid_end totals_mismatch duration_mismatch digest_mismatch : CaptureError

abbrev pub is_text : (String → Bool) → Option Json → Bool
is_text p (some (text s)) = p s
is_text p _ = false

abbrev pub unit_real : Real → CaptureError → Result CaptureError Real
unit_real r e = if (r.minus && not (r.num == 0)) || ltb r.den r.num then err e else ok r

abbrev pub real_of : ℤ → Real
real_of (pos n) = record { minus = false; num = n; den = 1 }
real_of (negsuc n) = record { minus = true; num = n + 1; den = 1 }

-- `_number`: a number of the unit interval, which a boolean is not
abbrev pub number : Option Json → CaptureError → Result CaptureError Real
number (some (int n)) e = unit_real (real_of n) e
number (some (real r)) e = unit_real r e
number _ e = err e

-- `a < b`, of numbers that are not negative
abbrev pub less : Real → Real → Bool
less a b = ltb (a.num * b.den) (b.num * a.den)

-- `value == n`, where Python takes `True` for 1
abbrev pub equals_int : Option Json → ℕ → Bool
equals_int (some (int k)) n = k == pos n
equals_int (some (real r)) n = (not r.minus || r.num == 0) && r.num == n * r.den
equals_int (some (truth b)) n = (if b then 1 else 0) == n
equals_int _ n = false

-- `isinstance(value, int)`, which a boolean is
abbrev pub as_int : Option Json → Option ℤ
as_int (some (int k)) = some k
as_int (some (truth b)) = some (pos (if b then 1 else 0))
as_int _ = none

abbrev pub bounded : Option ℤ → ℕ → ℕ → CaptureError → Result CaptureError ℕ
bounded (some (pos n)) low high e = if leb low n && leb n high then ok n else err e
bounded _ low high e = err e

abbrev pub boolean : Option Json → CaptureError → Result CaptureError Bool
boolean (some (truth b)) e = ok b
boolean _ e = err e

abbrev kinds : List String
kinds = "act" ∷ "miss" ∷ "stop_act" ∷ "stop_miss" ∷ []

abbrev pub kind_of : Option Json → Result CaptureError String
kind_of (some (text s)) = if elem s kinds then ok s else err invalid_kind
kind_of (some other) = err unhashable
kind_of _ = err invalid_kind

abbrev pub is_activation : String → Bool
is_activation k = k == "act" || k == "stop_act"

abbrev pub max_frames : ℕ
max_frames = 62

abbrev pub frame_bytes : ℕ
frame_bytes = 2560

abbrev same_bool : Bool → Bool → Bool
same_bool true b = b
same_bool false b = not b

-- The scores of a capture, against its thresholds.
abbrev pub check_scores : String → Object → Result CaptureError (Real × Real × Real)
check_scores kind m = do
  score ← number (get "score" m) invalid_score
  threshold ← number (get "threshold" m) invalid_threshold
  floor ← number (get "nearMissFloor" m) invalid_floor
  raise_if (is_activation kind && less score threshold) below_threshold
  raise_if (not (is_activation kind) && not (less floor score && less score threshold))
      outside_thresholds
  ok (score, threshold, floor)

-- The length of a capture: its number of milliseconds, of those requested.
abbrev pub check_length : Object → Result CaptureError ℕ
check_length m = do
  _ ← bounded (as_int (get "activationSeq" m)) 0 65535 invalid_activation
  requested ← bounded (as_int (get "requestedPrerollMs" m)) 80 5000 invalid_requested
  actual ← bounded (as_int (get "actualPrerollMs" m)) 80 (max_frames * 80) invalid_actual
  complete ← boolean (get "complete" m) invalid_completeness
  raise_if (ltb requested actual || not (same_bool complete (actual == requested))) inconsistent
  ok actual

unfoldable pub validate_metadata : Library → Object → Result CaptureError Object
validate_metadata lib m = do
  raise_if (not (is_text lib.is_id (get "captureId" m))) invalid_id
  raise_if (not (is_text lib.is_model (get "model" m))) invalid_model
  raise_if (not (is_text lib.is_checksum (get "classifierMd5" m))) invalid_checksum
  kind ← kind_of (get "kind" m)
  scores ← check_scores kind m
  raise_if (not (equals_int (get "sampleRate" m) 16000) || not (equals_int (get "sampleWidth" m) 2))
      invalid_format
  raise_if
      (not (equals_int (get "channels" m) 1) || not (equals_int (get "frameBytes" m) frame_bytes))
      invalid_framing
  _ ← check_length m
  _ ← boolean (get "bargeThresholdActive" m) invalid_barge
  ok (
      put "nearMissFloor" (real scores.2)
        (put "threshold" (real scores.1) (put "score" (real scores.0) m)))
