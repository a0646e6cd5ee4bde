-- ===== src/Training/Label.antt =====
-- Labelling: a capture goes to a bucket with the files beside it, or back as a whole
-- (controller/em_training_captures.py). The ends of a trim are whole milliseconds.
use echo_voice_satellite.Prelude.{
  ℕ, ◌*◌, ◌/◌, String, Bool, true, false, not, ◌&&◌, ◌||◌, Option, none, some, List, [], ◌∷◌,
  if◌then◌else◌, ◌==◌, nat_eq, ltb, leb, length,
}
use echo_voice_satellite.Prelude.Dict.{get, put}
use echo_voice_satellite.Training.Files.{
  Bucket, bucket_eq, wav, trim, meta, Name, FilePath, path_eq, Content, audio, range, Files, file,
  is_file, rename,
}
use echo_voice_satellite.Training.Store.{Names, resolve}

-- The end is within the samples of the WAV, 16,000 of two bytes to the second.
abbrev fits : ℕ → Option Content → Bool
fits end none = false
fits end (some c) = elim c [ audio pcm ↦ leb (end * 16000) (length pcm / 2 * 1000) | _ ↦ false ]

-- `_write_trim`, with whether its write works
unfoldable pub write_trim : Bool → String → Bucket → Name → ℕ → ℕ → Files → Files × Bool
write_trim writes m b n start end fs =
    if not (ltb start end) || not (fits end (get (file m b n wav) fs) && writes)
    then (fs, false)
    else (put (file m b n trim) (range start end) fs, true)

abbrev pub Pairs : Type 0
Pairs = List (FilePath × FilePath)

-- The loop of renames: the files, what was moved (the last first), and whether all of them worked
unfoldable pub moving : (FilePath → Bool) → Pairs → Pairs → Files → Files × Pairs × Bool
moving works [] moved fs = (fs, moved, true)
moving works ((p, q) ∷ ps) moved fs =
    let moves = moving works ps ((p, q) ∷ moved) (rename p q fs) in
    let skips = moving works ps moved fs in
    if is_file p fs then (if works p then moves else (fs, moved, false)) else skips

-- The loop that moves back what was moved
unfoldable pub rollback : (FilePath → Bool) → Pairs → Files → Files
rollback works [] fs = fs
rollback works ((p, q) ∷ moved) fs =
    rollback works moved
      (if is_file q fs && (not (is_file p fs) && works q) then rename q p fs else fs)

abbrev pub pairs : String → Bucket → Bucket → Name → Pairs
pairs m b t n =
    (file m b n wav, file m t n wav)
    ∷ (file m b n trim, file m t n trim)
    ∷ (file m b n meta, file m t n meta)
    ∷ []

abbrev pub settled : (FilePath → Bool) → Files × Pairs × Bool → Files × Bool
settled back (fs, moved, true) = (fs, true)
settled back (fs, moved, false) = (rollback back moved fs, false)

unfoldable pub move :
    (FilePath → Bool) → (FilePath → Bool) → String → Bucket → Bucket → Name → Files → Files × Bool
move works back m b t n fs =
    if b == t then (fs, true) else settled back (moving works (pairs m b t n) [] fs)

-- The two ends, of which neither is given, or both.
abbrev pub edited : Bool → String → Bucket → Name → Option ℕ → Option ℕ → Files → Files × Bool
edited writes m b n none none fs = (fs, true)
edited writes m b n (some start) (some end) fs = write_trim writes m b n start end fs
edited writes m b n _ _ fs = (fs, false)

abbrev then_move : (Files → Files × Bool) → Files × Bool → Files × Bool
then_move f (fs, true) = f fs
then_move f (fs, false) = (fs, false)

-- `label`, with which renames work, which of the renames back, and whether the write of a trim does
unfoldable pub label :
    Names
    → (FilePath → Bool)
    → (FilePath → Bool)
    → Bool
    → String
    → Name
    → Bucket
    → Option ℕ
    → Option ℕ
    → Files
    → Files × Bool
unfolding resolve write_trim
label py works back writes m n target start end fs = elim (resolve py m n fs) [
  | none ↦ (fs, false)
  | some b ↦ then_move (move works back m b target n) (edited writes m b n start end fs)
]
