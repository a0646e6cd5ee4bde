-- ===== src/Training/Uploads.antt =====
-- That an upload is stored, and beside nothing that was there (controller/em_training_captures.py).
use echo_voice_satellite.Prelude.{
  ℕ, zero, suc, ◌+◌, ◌≤◌, ◌<◌, String, ◌≡◌, refl, sym, ap, subst, length, if◌then◌else◌, ◌∙◌, Bool,
  true, false, Option, none, some, List, [], ◌∷◌, ◌==◌, arith, Bool-cases, inl, inr, string_eq,
  nat_eq, elem, min,
}
use echo_voice_satellite.Prelude.Dict.{get, put, get-put}
use echo_voice_satellite.Training.Files.{
  untriaged, wav, Name, FilePath, path_eq, path_beq_iff, Files, file, is_file, Meta, meta, audio,
  details, names_in, bucket_eq, part_eq,
}
use echo_voice_satellite.Training.Room.{tally, length-put, prune-room}
use echo_voice_satellite.Training.Store.{
  Names, kinds, filename, Uploaded, find_uploaded, free_ts, free_name, latest, is_empty,
  upload_kinds, committed, commit, committing, save_checked, save_uploaded,
}

-- No file is later than the latest.
is_file-le : (p : FilePath) (fs : Files) → is_file p fs ≡ true → p.name.ts_ms ≤ latest fs
unfolding get latest
is_file-le p [] e = cc
is_file-le p ((q, c) ∷ fs) e = elim (Bool-cases (q == p)) [
  | inl same ↦
      let one : q.name.ts_ms ≡ p.name.ts_ms =
        ap (λ (f : FilePath). f.name.ts_ms) ((path_beq_iff q p).0 same) in
      omega arith
  | inr other ↦ omega (arith, is_file-le p fs (rw (other, get) at e))
]

-- The name of a file that there is not
abbrev IsFree : String → Name → Files → Option Name → Type 0
IsFree m n fs o =
    (k : Name) × (o ≡ some k)
    × (is_file (file m untriaged k wav) fs ≡ false)
    × (k.device ≡ n.device)

untaken-IsFree :
    (fuel : ℕ) (m : String) (n : Name) (fs : Files)
    → is_file (file m untriaged n wav) fs ≡ false
    → IsFree m n fs (free_ts (suc fuel) m n fs)
unfolding free_ts
untaken-IsFree fuel m n fs free = (n, rw free refl, free, refl)

free_later :
    (fuel : ℕ) (m : String) (n : Name) (fs : Files)
    → is_file (file m untriaged n wav) fs ≡ true
    → free_ts (suc fuel) m n fs ≡ free_ts fuel m (record n { ts_ms = n.ts_ms + 1 }) fs
unfolding free_ts
free_later fuel m n fs taken = rw taken refl

free_ts-IsFree :
    (fuel : ℕ) (m : String) (n : Name) (fs : Files)
    → latest fs < n.ts_ms + fuel
    → IsFree m n fs (free_ts (suc fuel) m n fs)
free_ts-IsFree zero m n fs late = elim (Bool-cases (is_file (file m untriaged n wav) fs)) [
  | inr free ↦ untaken-IsFree 0 m n fs free
  | inl taken ↦ absurd (omega (arith, is_file-le (file m untriaged n wav) fs taken))
]
free_ts-IsFree (suc fuel) m n fs late = elim (Bool-cases (is_file (file m untriaged n wav) fs)) [
  | inr free ↦ untaken-IsFree (suc fuel) m n fs free
  | inl taken ↦
      let (k, found, free, same) =
        free_ts-IsFree fuel m (record n { ts_ms = n.ts_ms + 1 }) fs (omega arith) in
      (k, free_later (suc fuel) m n fs taken ∙ found, free, same)
]

is_kind : (s : String) → elem s upload_kinds ≡ true → elem s kinds ≡ true
is_kind s h = ground arith

filename_lem :
    (py : Names) (safe : String) (ts : ℕ) (u : Uploaded)
    → py.safe_device safe ≡ some safe
    → elem u.kind upload_kinds ≡ true
    → filename py safe ts u.kind u.milli
      ≡ some (record { device = safe; ts_ms = ts; kind = u.kind; score = min u.milli 99999 })
unfolding filename
filename_lem py safe ts u again kind = rw (again, is_kind u.kind kind) refl

checked_as :
    (py : Names) (works : FilePath → Bool) (m device safe id : String) (u : Uploaded) (pcm : List ℕ)
    (cap ts : ℕ) (fs : Files)
    → py.safe_device device ≡ some safe
    → u.capture_id ≡ some id
    → save_uploaded py works true m device u pcm cap ts fs
      ≡ save_checked py works true m (committed safe id u) u pcm cap ts fs
unfolding save_uploaded save_checked
checked_as py works m device safe id u pcm cap ts fs named given =
    rw (named, save_uploaded, given) refl

uploaded_as :
    (py : Names) (works : FilePath → Bool) (m : String) (k : Meta) (u : Uploaded) (pcm : List ℕ)
    (cap ts : ℕ) (fs : Files)
    → elem u.kind upload_kinds ≡ true
    → py.is_model m ≡ true
    → is_empty pcm ≡ false
    → find_uploaded m k.device_id k.capture_id fs ≡ none
    → save_checked py works true m k u pcm cap ts fs
      ≡ committing py works true m cap k pcm
          (free_name m (filename py k.device_id ts u.kind u.milli) fs)
          fs
unfolding save_checked
uploaded_as py works m k u pcm cap ts fs kind model audible new =
    rw (kind, model, audible, new) refl

-- The files with a new capture of these samples and this provenance, at the paths of its name, and all else as before
abbrev pub Stored : String → Name → List ℕ → Meta → Files → Files → FilePath → Type 0
Stored m n pcm k fs after q = get q after ≡ (
    if file m untriaged n wav == q
    then some (audio pcm)
    else if file m untriaged n meta == q
    then some (details k)
    else get q fs)

-- The commit leaves the room that there was, but for one capture.
commit_room :
    (py : Names) (works : FilePath → Bool) (m : String) (n : Name) (k : Meta) (pcm : List ℕ)
    (cap : ℕ) (fs : Files)
    → py.is_model m ≡ true
    → length (names_in m untriaged fs) < cap
    → committing py works true m cap k pcm (some n) fs
      ≡ ((commit true m n k pcm fs).0, some n, true)
commit_room py works m n k pcm cap fs known room =
    let with_meta = put (file m untriaged n meta) (details k) fs in
    let one = length-put m untriaged (file m untriaged n meta) (details k) fs in
    let two = length-put m untriaged (file m untriaged n wav) (audio pcm) with_meta in
    let none_of_meta : tally m untriaged (file m untriaged n meta) ≡ 0 = ground arith in
    let one_of_wav : tally m untriaged (file m untriaged n wav) ≤ 1 = ground arith in
    rw
      (prune-room py works m cap (put (file m untriaged n wav) (audio pcm) with_meta) known
        (omega arith))
      refl

commit-Stored :
    (m : String) (n : Name) (k : Meta) (pcm : List ℕ) (fs : Files) (q : FilePath)
    → Stored m n pcm k fs (commit true m n k pcm fs).0 q
commit-Stored m n k pcm fs q =
    get-put (file m untriaged n wav) q (audio pcm) (put (file m untriaged n meta) (details k) fs)
    ∙ ap (λ o. if file m untriaged n wav == q then some (audio pcm) else o)
        (get-put (file m untriaged n meta) q (details k) fs)

-- A capture of a known kind that is uploaded under a new id by a device with a safe id is stored, if the model is one,
-- the queue has room for it and the writes work: its samples and its provenance are then the files under a name of the
-- device that no capture to label had, and every other file is as it was.
pub save_uploaded-stores :
    (py : Names) (works : FilePath → Bool) (m device safe id : String) (u : Uploaded) (pcm : List ℕ)
    (cap ts : ℕ) (fs : Files) (q : FilePath)
    → py.safe_device device ≡ some safe
    → u.capture_id ≡ some id
    → elem u.kind upload_kinds ≡ true
    → (py.is_model m ≡ true) × (py.safe_device safe ≡ some safe)
    → is_empty pcm ≡ false
    → find_uploaded m safe id fs ≡ none
    → length (names_in m untriaged fs) < cap
    → (n : Name) × ((save_uploaded py works true m device u pcm cap ts fs).1 ≡ some n)
      × ((save_uploaded py works true m device u pcm cap ts fs).2 ≡ true)
      × (n.device ≡ safe)
      × (is_file (file m untriaged n wav) fs ≡ false)
      × Stored m n pcm
          (committed safe id u)
          fs
          (save_uploaded py works true m device u pcm cap ts fs).0
          q
save_uploaded-stores py works m device safe id u pcm cap ts fs q named given kind (model, again)
      audible new room =
    let k = committed safe id u in
    let n : Name = record { device = safe; ts_ms = ts; kind = u.kind; score = min u.milli 99999 } in
    let (x, found, free, same) = free_ts-IsFree (latest fs + 1) m n fs (omega arith) in
    let enough : suc (latest fs + 1) ≡ latest fs + 2 = omega arith in
    let free_one : free_name m (some n) fs ≡ some x =
      subst (λ f. free_ts f m n fs ≡ some x) enough found in
    let named_so = filename_lem py safe ts u again kind in
    let stored =
      checked_as py works m device safe id u pcm cap ts fs named given
      ∙ uploaded_as py works m k u pcm cap ts fs kind model audible new
      ∙ ap (λ o. committing py works true m cap k pcm o fs)
          (ap (λ o. free_name m o fs) named_so ∙ free_one)
      ∙ commit_room py works m x k pcm cap fs model room in
    (
      x,
      ap (λ r. r.1) stored,
      ap (λ r. r.2) stored,
      same,
      free,
      subst (λ r. Stored m x pcm k fs r.0 q) (sym stored) (commit-Stored m x k pcm fs q),
    )
