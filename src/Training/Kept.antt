-- ===== src/Training/Kept.antt =====
-- That labelled captures are kept, whatever is captured (controller/em_training_captures.py).
use echo_voice_satellite.Prelude.{
  ℕ, String, ◌≡◌, ◌≢◌, refl, sym, ap, ◌∙◌, inl, inr, Bool, true, false, not, ◌||◌, Option, none,
  some, List, [], ◌∷◌, ◌==◌, Bool-cases, Option-cases, drop, list_eq, nat_eq, string_eq, elem,
}
use echo_voice_satellite.Prelude.Dict.{get, put, remove, get-put, get-remove}
use echo_voice_satellite.Training.Files.{
  Bucket, untriaged, bucket_eq, Part, wav, trim, meta, Name, FilePath, path_eq, path_beq_iff, Files,
  file, Content, audio, details, unlink, list_captures, Meta,
}
use echo_voice_satellite.Training.Store.{
  Names, prune_untriaged, unlink_all, save, save_uploaded, filename, Uploaded, find_uploaded,
  is_empty, upload, save_checked, commit, committing, committed, free_name, upload_kinds,
}

-- A file that is not in the queue of captures to label.
abbrev Labelled : FilePath → Type 0
Labelled r = r.bucket ≢ untriaged

-- The two hold the same file at the path.
abbrev SameAt : FilePath → Files → Files → Type 0
SameAt r fs gs = get r gs ≡ get r fs

module _ (m : String) (n : Name) (p : Part) (r : FilePath) (labelled : Labelled r) where
  apart : (file m untriaged n p == r) ≡ false
  apart = elim (Bool-cases (file m untriaged n p == r)) [
    | inl e ↦ absurd (
        labelled
          (sym (ap (λ (f : FilePath). f.bucket) ((path_beq_iff (file m untriaged n p) r).0 e))))
    | inr e ↦ e
  ]

  put_other : (c : Content) (fs : Files) → SameAt r fs (put (file m untriaged n p) c fs)
  put_other c fs = get-put (file m untriaged n p) r c fs ∙ rw apart refl

  remove_other : (fs : Files) → SameAt r fs (remove (file m untriaged n p) fs)
  remove_other fs = get-remove (file m untriaged n p) r fs ∙ rw apart refl

module _ (works : FilePath → Bool) (m : String) (r : FilePath) (labelled : Labelled r) where
  unlink_other : (n : Name) (fs : Files) → SameAt r fs (unlink works m untriaged n fs)
  unfolding unlink
  unlink_other n fs =
      let one = remove (file m untriaged n wav) fs in
      let two = remove (file m untriaged n trim) one in
      let first = remove_other m n wav r labelled fs in
      let second = remove_other m n trim r labelled one ∙ first in
      let third = remove_other m n meta r labelled two ∙ second in
      elim (Bool-cases (works (file m untriaged n wav))) [
        | inr a ↦ rw a refl
        | inl a ↦ elim (Bool-cases (works (file m untriaged n trim))) [
          | inr b ↦ rw (a, b) first
          | inl b ↦ elim (Bool-cases (works (file m untriaged n meta))) [
            | inr c ↦ rw (a, b, c) second
            | inl c ↦ rw (a, b, c) third
          ]
        ]
      ]

  unlink_all_other :
      (ns : List Name) (fs : Files) → SameAt r fs (unlink_all works m untriaged ns fs)
  unlink_all_other [] fs = refl
  unlink_all_other (n ∷ ns) fs =
      unlink_all_other ns (unlink works m untriaged n fs) ∙ unlink_other n fs

  prune_other :
      (py : Names) (cap : ℕ) (fs : Files) → SameAt r fs (prune_untriaged py works m cap fs)
  unfolding prune_untriaged
  prune_other py cap fs = elim (Bool-cases (py.is_model m)) [
    | inl e ↦ rw e (unlink_all_other (drop cap (list_captures m untriaged fs)) fs)
    | inr e ↦ rw e refl
  ]

  save_other :
      (py : Names) (device : String) (pcm : List ℕ) (kind : String) (milli cap ts : ℕ) (fs : Files)
      → SameAt r fs (save py works m device pcm kind milli cap ts fs).0
  unfolding save
  save_other py device pcm kind milli cap ts fs =
      elim (Option-cases (filename py device ts kind milli)) [
        | inl e ↦ rw (e, save) refl
        | inr (n, e) ↦ elim (Bool-cases (not (py.is_model m) || is_empty pcm)) [
          | inl refuses ↦ rw (e, save, refuses) refl
          | inr f ↦
              rw (e, save, f)
                (prune_other py cap (put (file m untriaged n wav) (audio pcm) fs)
                  ∙ put_other m n wav r labelled (audio pcm) fs)
        ]
      ]

  commit_other :
      (writes : Bool) (n : Name) (k : Meta) (pcm : List ℕ) (fs : Files)
      → SameAt r fs (commit writes m n k pcm fs).0
  commit_other true n k pcm fs =
      put_other m n wav r labelled (audio pcm) (put (file m untriaged n meta) (details k) fs)
      ∙ put_other m n meta r labelled (details k) fs
  commit_other false n k pcm fs =
      remove_other m n meta r labelled (remove (file m untriaged n wav) fs)
      ∙ remove_other m n wav r labelled fs

  committing_other :
      (py : Names) (writes : Bool) (cap : ℕ) (k : Meta) (pcm : List ℕ) (o : Option Name)
      (fs : Files)
      → SameAt r fs (committing py works writes m cap k pcm o fs).0
  committing_other py writes cap k pcm none fs = refl
  committing_other py true cap k pcm (some n) fs =
      prune_other py cap (commit true m n k pcm fs).0 ∙ commit_other true n k pcm fs
  committing_other py false cap k pcm (some n) fs = commit_other false n k pcm fs

  upload_other :
      (py : Names) (writes : Bool) (k : Meta) (u : Uploaded) (pcm : List ℕ) (cap ts : ℕ)
      (fs : Files) (found : Option (Bucket × Name))
      → SameAt r fs (upload py works writes m k u pcm cap ts fs found).0
  upload_other py writes k u pcm cap ts fs (some (b, n)) = refl
  upload_other py writes k u pcm cap ts fs none =
      committing_other py writes cap k pcm
        (free_name m (filename py k.device_id ts u.kind u.milli) fs) fs

  save_checked_other :
      (py : Names) (writes : Bool) (k : Meta) (u : Uploaded) (pcm : List ℕ) (cap ts : ℕ)
      (fs : Files)
      → SameAt r fs (save_checked py works writes m k u pcm cap ts fs).0
  unfolding save_checked
  save_checked_other py writes k u pcm cap ts fs =
      elim (Bool-cases (not (elem u.kind upload_kinds) || (not (py.is_model m) || is_empty pcm))) [
        | inl refuses ↦ rw refuses refl
        | inr f ↦
            rw f (
              upload_other py writes k u pcm cap ts fs
                (find_uploaded m k.device_id k.capture_id fs))
      ]

  save_uploaded_other :
      (py : Names) (writes : Bool) (device : String) (u : Uploaded) (pcm : List ℕ) (cap ts : ℕ)
      (fs : Files)
      → SameAt r fs (save_uploaded py works writes m device u pcm cap ts fs).0
  unfolding save_uploaded
  save_uploaded_other py writes device u pcm cap ts fs =
      elim (Option-cases (py.safe_device device)) [
        | inl e ↦ rw (e, save_uploaded) refl
        | inr (safe, e) ↦ elim (Option-cases u.capture_id) [
          | inl f ↦ rw (e, save_uploaded, f) refl
          | inr (id, f) ↦
              rw (e, save_uploaded, f)
                (save_checked_other py writes (committed safe id u) u pcm cap ts fs)
        ]
      ]

-- What comes in: a capture of the controller, an upload of a device, or a prune, with the calls that work.
pub data Arrival : Type 0 where
  saves : (FilePath → Bool) → String → String → List ℕ → String → ℕ → ℕ → ℕ → Arrival
  uploads : (FilePath → Bool) → Bool → String → String → Uploaded → List ℕ → ℕ → ℕ → Arrival
  prunes : (FilePath → Bool) → String → ℕ → Arrival

unfoldable pub arrive : Names → Arrival → Files → Files
arrive py (saves works m device pcm kind milli cap ts) fs =
    (save py works m device pcm kind milli cap ts fs).0
arrive py (uploads works writes m device u pcm cap ts) fs =
    (save_uploaded py works writes m device u pcm cap ts fs).0
arrive py (prunes works m cap) fs = prune_untriaged py works m cap fs

unfoldable pub arrivals : Names → List Arrival → Files → Files
unfolding arrive
arrivals py [] fs = fs
arrivals py (a ∷ rest) fs = arrivals py rest (arrive py a fs)

arrive_other :
    (py : Names) (a : Arrival) (r : FilePath) (fs : Files)
    → Labelled r
    → SameAt r fs (arrive py a fs)
unfolding arrive
arrive_other py (saves works m device pcm kind milli cap ts) r fs h =
    save_other works m r h py device pcm kind milli cap ts fs
arrive_other py (uploads works writes m device u pcm cap ts) r fs h =
    save_uploaded_other works m r h py writes device u pcm cap ts fs
arrive_other py (prunes works m cap) r fs h = prune_other works m r h py cap fs

-- Labelled captures are never lost to the retention: whatever captures, uploads and prunes come, and whatever calls
-- of the file system fail in them, every file of a labelled capture is as it was.
pub arrivals-labelled :
    (py : Names) (arriving : List Arrival) (r : FilePath) (fs : Files)
    → r.bucket ≢ untriaged
    → get r (arrivals py arriving fs) ≡ get r fs
unfolding arrivals
arrivals-labelled py [] r fs h = refl
arrivals-labelled py (a ∷ rest) r fs h =
    arrivals-labelled py rest r (arrive py a fs) h ∙ arrive_other py a r fs h
