-- ===== src/Training/Files.antt =====
-- The files of the captures (controller/em_training_captures.py), as a dictionary from their paths.
use echo_voice_satellite.Prelude.{
  ℕ, String, ◌≡◌, ◌↔◌, Bool, true, false, not, ◌&&◌, none, some, List, [], ◌∷◌, if◌then◌else◌, ◌==◌,
  Keyed, nat_eq, string_eq, eq_iff, leb, arith, is_given,
}
use echo_voice_satellite.Prelude.Dict.{Dict, get, put, remove}

-- `BUCKETS`
pub data Bucket : Type 0 where
  untriaged positive negative : Bucket

abbrev bucket_beq : Bucket → Bucket → Bool
bucket_beq untriaged untriaged = true
bucket_beq positive positive = true
bucket_beq negative negative = true
bucket_beq _ _ = false

pub bucket_beq_iff : (a b : Bucket) → (bucket_beq a b ≡ true) ↔ (a ≡ b)
bucket_beq_iff untriaged untriaged = ground arith
bucket_beq_iff untriaged positive = ground arith
bucket_beq_iff untriaged negative = ground arith
bucket_beq_iff positive untriaged = ground arith
bucket_beq_iff positive positive = ground arith
bucket_beq_iff positive negative = ground arith
bucket_beq_iff negative untriaged = ground arith
bucket_beq_iff negative positive = ground arith
bucket_beq_iff negative negative = ground arith

instance abbrev pub bucket_eq : Keyed Bucket
bucket_eq = record { same = bucket_beq; same_iff = bucket_beq_iff }

-- The WAV, `TRIM_SUFFIX` and `META_SUFFIX`.
pub data Part : Type 0 where
  wav trim meta : Part

abbrev part_beq : Part → Part → Bool
part_beq wav wav = true
part_beq trim trim = true
part_beq meta meta = true
part_beq _ _ = false

pub part_beq_iff : (a b : Part) → (part_beq a b ≡ true) ↔ (a ≡ b)
part_beq_iff wav wav = ground arith
part_beq_iff wav trim = ground arith
part_beq_iff wav meta = ground arith
part_beq_iff trim wav = ground arith
part_beq_iff trim trim = ground arith
part_beq_iff trim meta = ground arith
part_beq_iff meta wav = ground arith
part_beq_iff meta trim = ground arith
part_beq_iff meta meta = ground arith

instance abbrev pub part_eq : Keyed Part
part_eq = record { same = part_beq; same_iff = part_beq_iff }

-- `<device>_<ts_ms>_<kind>_<score_milli>.wav`
pub record Name : Type 0 where
  pub device : String
  pub ts_ms : ℕ
  pub kind : String
  pub score : ℕ

abbrev name_beq : Name → Name → Bool
name_beq a b =
    (a.device == b.device && a.kind == b.kind) && (a.ts_ms == b.ts_ms && a.score == b.score)

pub name_beq_iff : (a b : Name) → (name_beq a b ≡ true) ↔ (a ≡ b)
name_beq_iff a b = ground (arith, eq_iff a.device b.device, eq_iff a.kind b.kind)

instance abbrev pub name_eq : Keyed Name
name_eq = record { same = name_beq; same_iff = name_beq_iff }

pub record FilePath : Type 0 where
  pub model : String
  pub bucket : Bucket
  pub name : Name
  pub part : Part

abbrev path_beq : FilePath → FilePath → Bool
path_beq a b =
    (a.model == b.model && a.bucket == b.bucket) && (a.name == b.name && a.part == b.part)

pub path_beq_iff : (a b : FilePath) → (path_beq a b ≡ true) ↔ (a ≡ b)
path_beq_iff a b = ground (
  arith,
  eq_iff a.model b.model,
  bucket_beq_iff a.bucket b.bucket,
  name_beq_iff a.name b.name,
  part_beq_iff a.part b.part,
)

instance abbrev pub path_eq : Keyed FilePath
path_eq = record { same = path_beq; same_iff = path_beq_iff }

-- The metadata of an upload, with the device: its id, and what else there is as one text.
pub record Meta : Type 0 where
  pub device_id : String
  pub capture_id : String
  pub rest : String

abbrev meta_beq : Meta → Meta → Bool
meta_beq a b = a.device_id == b.device_id && (a.capture_id == b.capture_id && a.rest == b.rest)

pub meta_beq_iff : (a b : Meta) → (meta_beq a b ≡ true) ↔ (a ≡ b)
meta_beq_iff a b =
    ground (
      arith,
      eq_iff a.device_id b.device_id,
      eq_iff a.capture_id b.capture_id,
      eq_iff a.rest b.rest,
    )

instance abbrev pub meta_eq : Keyed Meta
meta_eq = record { same = meta_beq; same_iff = meta_beq_iff }

-- Samples, the two ends of a trim in milliseconds, or metadata.
pub data Content : Type 0 where
  audio : List ℕ → Content
  range : ℕ → ℕ → Content
  details : Meta → Content

abbrev pub Files : Type 0
Files = Dict FilePath Content

abbrev pub file : String → Bucket → Name → Part → FilePath
file m b n p = record { model = m; bucket = b; name = n; part = p }

-- `path.is_file()`
abbrev pub is_file : FilePath → Files → Bool
is_file p fs = is_given (get p fs)

-- `source.replace(target)`
unfoldable pub rename : FilePath → FilePath → Files → Files
rename p q fs = elim (get p fs) [ none ↦ fs | some c ↦ put q c (remove p fs) ]

-- The captures of a bucket, as `iterdir` gives them
unfoldable pub names_in : String → Bucket → Files → List Name
names_in m b [] = []
names_in m b ((p, c) ∷ fs) =
    let rest = names_in m b fs in
    if (p.model == m && p.bucket == b) && p.part == wav then p.name ∷ rest else rest

-- `parsed.sort(key=lambda e: e["ts_ms"], reverse=True)`
abbrev pub insert_newest : Name → List Name → List Name
insert_newest n [] = n ∷ []
insert_newest n (k ∷ ks) =
    let rest = insert_newest n ks in if leb k.ts_ms n.ts_ms then n ∷ k ∷ ks else k ∷ rest

unfoldable pub newest_first : List Name → List Name
newest_first [] = []
newest_first (n ∷ ns) = insert_newest n (newest_first ns)

unfoldable pub list_captures : String → Bucket → Files → List Name
unfolding names_in newest_first
list_captures m b fs = newest_first (names_in m b fs)

-- `unlink` of the WAV and then of what stands beside it, up to a call that does not work
unfoldable pub unlink : (FilePath → Bool) → String → Bucket → Name → Files → Files
unlink works m b n fs =
    let one = remove (file m b n wav) fs in
    let two = remove (file m b n trim) one in
    if not (works (file m b n wav))
    then fs
    else if not (works (file m b n trim))
    then one
    else if not (works (file m b n meta))
    then two
    else remove (file m b n meta) two
