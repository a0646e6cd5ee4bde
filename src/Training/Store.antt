-- ===== src/Training/Store.antt =====
-- What is saved and pruned, and what a device or an export takes away (controller/em_training_captures.py).
use echo_voice_satellite.Prelude.{
  ℕ, zero, suc, ◌+◌, String, Bool, true, false, not, ◌&&◌, ◌||◌, Option, none, some, List, [], ◌∷◌,
  if◌then◌else◌, ◌==◌, nat_eq, string_eq, min, max, drop, elem, list_eq,
}
use echo_voice_satellite.Prelude.Dict.{get, put, remove}
use echo_voice_satellite.Training.Files.{
  Bucket, untriaged, positive, negative, bucket_eq, wav, trim, meta, part_eq, Name, name_eq,
  FilePath, path_eq, Meta, meta_eq, Content, audio, details, Files, file, is_file, list_captures,
  unlink,
}

-- `safe_model` and `em_recordings.safe_device_id`, by the patterns of `re`
pub record Names : Type 0 where
  pub is_model : String → Bool
  pub safe_device : String → Option String

-- `KINDS`
abbrev pub kinds : List String
kinds = "act" ∷ "miss" ∷ "stop_act" ∷ "stop_miss" ∷ "false_stop" ∷ "playback_negative" ∷ []

abbrev pub upload_kinds : List String
upload_kinds = "act" ∷ "miss" ∷ "stop_act" ∷ "stop_miss" ∷ []

-- `filename`, of a score in thousandths that is not negative
abbrev named : ℕ → String → ℕ → Option String → Option Name
named ts kind milli none = none
named ts kind milli (some device) =
    if elem kind kinds
    then some (record { device = device; ts_ms = ts; kind = kind; score = min milli 99999 })
    else none

unfoldable pub filename : Names → String → ℕ → String → ℕ → Option Name
filename py device ts kind milli = named ts kind milli (py.safe_device device)

abbrev pub unlink_all : (FilePath → Bool) → String → Bucket → List Name → Files → Files
unlink_all works m b [] fs = fs
unlink_all works m b (n ∷ ns) fs = unlink_all works m b ns (unlink works m b n fs)

unfoldable pub prune_untriaged : Names → (FilePath → Bool) → String → ℕ → Files → Files
unfolding list_captures unlink
prune_untriaged py works m cap fs =
    if py.is_model m
    then unlink_all works m untriaged (drop cap (list_captures m untriaged fs)) fs
    else fs

abbrev pub is_empty {ℓ} : {A : Type ℓ} → List A → Bool
is_empty [] = true
is_empty (x ∷ xs) = false

-- `save`, whose writes work
unfoldable pub save :
    Names
    → (FilePath → Bool)
    → String
    → String
    → List ℕ
    → String
    → ℕ
    → ℕ
    → ℕ
    → Files
    → Files × Option Name
unfolding filename prune_untriaged
save py works m device pcm kind milli cap ts fs = elim (filename py device ts kind milli) [
  | none ↦ (fs, none)
  | some n ↦
      if not (py.is_model m) || is_empty pcm
      then (fs, none)
      else (prune_untriaged py works m cap (put (file m untriaged n wav) (audio pcm) fs), some n)
]

-- Whether a file is the provenance of a capture that the device uploaded under the id, beside its WAV
abbrev says : String → String → Content → Bool
says device id (details k) = k.device_id == device && k.capture_id == id
says device id _ = false

-- `_find_uploaded` in one bucket
unfoldable pub find_in : String → Bucket → String → String → Files → Files → Option Name
find_in m b device id all [] = none
find_in m b device id all ((p, c) ∷ fs) =
    let rest = find_in m b device id all fs in
    if ((p.model == m && p.bucket == b) && p.part == meta)
      && (is_file (file m b p.name wav) all && says device id c)
    then some p.name
    else rest

abbrev or_else : Option (Bucket × Name) → Option (Bucket × Name) → Option (Bucket × Name)
or_else none o = o
or_else (some x) o = some x

abbrev in_bucket : Bucket → Option Name → Option (Bucket × Name)
in_bucket b none = none
in_bucket b (some n) = some (b, n)

unfoldable pub find_uploaded : String → String → String → Files → Option (Bucket × Name)
unfolding find_in
find_uploaded m device id fs = or_else (in_bucket untriaged (find_in m untriaged device id fs fs)) (
    or_else (in_bucket positive (find_in m positive device id fs fs))
      (in_bucket negative (find_in m negative device id fs fs)))

-- `while path.exists(): ts_ms += 1`, on a device's safe name; `none` means that the fuel ran out.
unfoldable pub free_ts : ℕ → String → Name → Files → Option Name
free_ts zero m n fs = none
free_ts (suc fuel) m n fs =
    let next = free_ts fuel m (record n { ts_ms = n.ts_ms + 1 }) fs in
    if is_file (file m untriaged n wav) fs then next else some n

-- More than the latest time of a file
unfoldable pub latest : Files → ℕ
latest [] = 0
latest ((p, c) ∷ fs) = max p.name.ts_ms (latest fs)

-- What the metadata of an upload holds: its id if that is a text, its kind, its score and the rest.
pub record Uploaded : Type 0 where
  pub capture_id : Option String
  pub kind : String
  pub milli : ℕ
  pub rest : String

abbrev pub committed : String → String → Uploaded → Meta
committed device id u = record { device_id = device; capture_id = id; rest = u.rest }

-- The name of an exact duplicate
abbrev pub same_upload : Meta → Files → FilePath → Name → Option Name
same_upload k fs p n = elim (get p fs) [
  | none ↦ none
  | some c ↦ elim c [ details j ↦ if j == k then some n else none | _ ↦ none ]
]

-- The two renames of the commit, the provenance first; a call that fails takes both away.
abbrev pub commit : Bool → String → Name → Meta → List ℕ → Files → Files × Bool
commit works m n k pcm fs =
    if works
    then (
      put (file m untriaged n wav) (audio pcm) (put (file m untriaged n meta) (details k) fs),
      true,
    )
    else (remove (file m untriaged n meta) (remove (file m untriaged n wav) fs), false)

abbrev pub committing :
    Names
    → (FilePath → Bool)
    → Bool
    → String
    → ℕ
    → Meta
    → List ℕ
    → Option Name
    → Files
    → Files × Option Name × Bool
committing py works writes m cap k pcm none fs = (fs, none, false)
committing py works writes m cap k pcm (some n) fs =
    let (fs', done) = commit writes m n k pcm fs in
    if done then (prune_untriaged py works m cap fs', some n, true) else (fs', none, false)

abbrev pub free_name : String → Option Name → Files → Option Name
free_name m none fs = none
free_name m (some n) fs = free_ts (latest fs + 2) m n fs

-- What `find_uploaded` finds is answered if it is an exact duplicate, and anything else is committed.
abbrev pub upload :
    Names
    → (FilePath → Bool)
    → Bool
    → String
    → Meta
    → Uploaded
    → List ℕ
    → ℕ
    → ℕ
    → Files
    → Option (Bucket × Name)
    → Files × Option Name × Bool
upload py works writes m k u pcm cap ts fs (some (b, n)) =
    (fs, same_upload k fs (file m b n meta) n, false)
upload py works writes m k u pcm cap ts fs none =
    committing py works writes m cap k pcm
      (free_name m (filename py k.device_id ts u.kind u.milli) fs) fs

-- `save_uploaded` of an id that is a text, by a device whose id is safe
unfoldable pub save_checked :
    Names
    → (FilePath → Bool)
    → Bool
    → String
    → Meta
    → Uploaded
    → List ℕ
    → ℕ
    → ℕ
    → Files
    → Files × Option Name × Bool
save_checked py works writes m k u pcm cap ts fs =
    if not (elem u.kind upload_kinds) || (not (py.is_model m) || is_empty pcm)
    then (fs, none, false)
    else upload py works writes m k u pcm cap ts fs (find_uploaded m k.device_id k.capture_id fs)

-- `save_uploaded`, with the time and whether its writes work: the files, the name, and whether it is new
unfoldable pub save_uploaded :
    Names
    → (FilePath → Bool)
    → Bool
    → String
    → String
    → Uploaded
    → List ℕ
    → ℕ
    → ℕ
    → Files
    → Files × Option Name × Bool
save_uploaded py works writes m device u pcm cap ts fs = elim (py.safe_device device) [
  | none ↦ (fs, none, false)
  | some safe ↦ elim u.capture_id [
    | none ↦ (fs, none, false)
    | some id ↦ save_checked py works writes m (committed safe id u) u pcm cap ts fs
  ]
]

-- `resolve` without a bucket: the first in which the WAV is
unfoldable pub resolve : Names → String → Name → Files → Option Bucket
resolve py m n fs =
    if not (py.is_model m)
    then none
    else if is_file (file m untriaged n wav) fs
    then some untriaged
    else if is_file (file m positive n wav) fs
    then some positive
    else if is_file (file m negative n wav) fs
    then some negative
    else none

unfoldable pub discard : Names → (FilePath → Bool) → String → Name → Files → Files × Bool
unfolding resolve unlink
discard py works m n fs = elim (resolve py m n fs) [
  | none ↦ (fs, false)
  | some b ↦ (
    unlink works m b n fs,
    works (file m b n wav) && (works (file m b n trim) && works (file m b n meta)),
  )
]

-- `delete_device`, of the files that are there when it starts
unfoldable pub delete_files : (FilePath → Bool) → String → Files → Files → Files
delete_files works safe [] fs = fs
delete_files works safe ((p, c) ∷ rest) fs =
    delete_files works safe rest (
      if p.part == wav && p.name.device == safe
      then unlink works p.model p.bucket p.name fs
      else fs)

unfoldable pub delete_device : Names → (FilePath → Bool) → String → Files → Files
unfolding delete_files
delete_device py works device fs = elim (py.safe_device device) [
  | none ↦ fs
  | some safe ↦ delete_files works safe fs fs
]
