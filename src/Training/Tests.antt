-- ===== src/Training/Tests.antt =====
-- The laws of `Training` at concrete captures.
use echo_voice_satellite.Prelude.{
  arith, ◌≤◌, ◌≡◌, refl, Bool, true, false, none, some, [], ◌∷◌, if◌then◌else◌, ◌==◌, string_eq,
  elem, take, length, All, list_eq,
}
use echo_voice_satellite.Prelude.Dict.{get, put, remove}
use echo_voice_satellite.Training.Files.{
  untriaged, positive, wav, trim, Name, name_eq, FilePath, path_eq, audio, range, Files, file,
  is_file, names_in, newest_first, rename, unlink, list_captures,
}
use echo_voice_satellite.Training.Store.{
  Names, save, save_uploaded, Uploaded, committed, filename, prune_untriaged, find_in,
  find_uploaded, resolve, delete_device,
}
use echo_voice_satellite.Training.Label.{label, move, moving, rollback}
use echo_voice_satellite.Training.Moves.{WholeMove, label-whole}
use echo_voice_satellite.Training.Kept.{saves, prunes, arrivals, arrivals-labelled}
use echo_voice_satellite.Training.Cap.{SortedOut, save-cap}
use echo_voice_satellite.Training.Uploads.{Stored, save_uploaded-stores}
use echo_voice_satellite.Training.Removal.{delete_device-gone}

abbrev py : Names
py = record { is_model = λ m. true; safe_device = λ d. some d }

abbrev all_work : FilePath → Bool
all_work p = true

abbrev at_noon : Name
at_noon = record { device = "kitchen"; ts_ms = 12; kind = "act"; score = 700 }

abbrev at_one : Name
at_one = record { device = "kitchen"; ts_ms = 13; kind = "miss"; score = 300 }

-- One capture to label, with a trim, and one that is labelled.
abbrev files : Files
files =
    (file "jarvis" untriaged at_noon wav, audio (1 ∷ 2 ∷ []))
    ∷ (file "jarvis" untriaged at_noon trim, range 0 1)
    ∷ (file "jarvis" positive at_one wav, audio (3 ∷ 4 ∷ []))
    ∷ []

-- The rename of the trim fails.
abbrev trim_fails : FilePath → Bool
trim_fails p = elim p.part [ trim ↦ false | _ ↦ true ]

put_back :
    get
      (file "jarvis" untriaged at_noon wav)
      (label py trim_fails all_work true "jarvis" at_noon positive none none files).0
    ≡ some (audio (1 ∷ 2 ∷ []))
unfolding label move moving rollback rename resolve get put remove
put_back = refl

label-whole_example :
    WholeMove "jarvis" untriaged positive at_noon files
      (label py trim_fails all_work true "jarvis" at_noon positive none none files)
unfolding resolve get
label-whole_example =
    label-whole py trim_fails all_work true "jarvis" at_noon untriaged positive none none files
      files (λ p. refl) refl refl (λ e. cc)

arrivals-labelled_example :
    get (file "jarvis" positive at_one wav) (
      arrivals py
        (saves trim_fails "jarvis" "kitchen" (5 ∷ 6 ∷ []) "act" 500 1 14
          ∷ prunes all_work "jarvis" 0
          ∷ [])
        files)
    ≡ get (file "jarvis" positive at_one wav) files
arrivals-labelled_example =
    arrivals-labelled py
      (saves trim_fails "jarvis" "kitchen" (5 ∷ 6 ∷ []) "act" 500 1 14
        ∷ prunes all_work "jarvis" 0
        ∷ [])
      (file "jarvis" positive at_one wav) files (λ e. cc)

abbrev at_two : Name
at_two = record { device = "kitchen"; ts_ms = 14; kind = "act"; score = 500 }

save-cap_example :
    let kept =
      names_in "jarvis" untriaged
        (save py all_work "jarvis" "kitchen" (5 ∷ 6 ∷ []) "act" 500 1 14 files).0 in
    (length kept ≤ 1)
    × All
        (λ k.
          elem k (
            take 1 (
              newest_first (
                names_in "jarvis" untriaged
                  (put (file "jarvis" untriaged at_two wav) (audio (5 ∷ 6 ∷ [])) files))))
          ≡ true)
        kept
    × All
        (SortedOut 1
          (names_in "jarvis" untriaged
            (put (file "jarvis" untriaged at_two wav) (audio (5 ∷ 6 ∷ [])) files))
          kept)
        (names_in "jarvis" untriaged
          (put (file "jarvis" untriaged at_two wav) (audio (5 ∷ 6 ∷ [])) files))
unfolding save filename
save-cap_example =
    save-cap py all_work "jarvis" "kitchen" (5 ∷ 6 ∷ []) "act" 500 1 14 files at_two (λ p. refl)
      refl

-- A clock that went back: the capture that was just saved is the oldest, and the prune takes it away at once.
saved_and_gone :
    let after = save py all_work "jarvis" "kitchen" (5 ∷ 6 ∷ []) "act" 500 1 9 files in
    (after.1 ≡ some (record { device = "kitchen"; ts_ms = 9; kind = "act"; score = 500 }))
    × (get
          (file "jarvis" untriaged
            (record { device = "kitchen"; ts_ms = 9; kind = "act"; score = 500 })
            wav)
          after.0
        ≡ none)
unfolding save filename prune_untriaged list_captures names_in newest_first unlink get put remove
saved_and_gone = (refl, refl)

abbrev upload : Uploaded
upload = record { capture_id = some "c1"; kind = "act"; milli = 700; rest = "" }

abbrev at_thirteen : Name
at_thirteen = record { device = "kitchen"; ts_ms = 13; kind = "act"; score = 700 }

-- The name of the time is taken by the first capture.
save_uploaded-stores_example :
    (n : Name) × ((save_uploaded py all_work true "jarvis" "kitchen" upload (7 ∷ []) 5 12 files).1
      ≡ some n)
    × ((save_uploaded py all_work true "jarvis" "kitchen" upload (7 ∷ []) 5 12 files).2 ≡ true)
    × (n.device ≡ "kitchen")
    × (is_file (file "jarvis" untriaged n wav) files ≡ false)
    × Stored "jarvis" n
        (7 ∷ [])
        (committed "kitchen" "c1" upload)
        files
        (save_uploaded py all_work true "jarvis" "kitchen" upload (7 ∷ []) 5 12 files).0
        (file "jarvis" untriaged at_thirteen wav)
unfolding find_uploaded find_in names_in
save_uploaded-stores_example =
    save_uploaded-stores py all_work "jarvis" "kitchen" "kitchen" "c1" upload (7 ∷ []) 5 12 files
      (file "jarvis" untriaged at_thirteen wav) refl refl refl (refl, refl) refl refl (omega arith)

delete_device-gone_example :
    get (file "jarvis" positive at_one wav) (delete_device py all_work "kitchen" files)
    ≡ (if at_one.device == "kitchen" then none else get (file "jarvis" positive at_one wav) files)
delete_device-gone_example =
    delete_device-gone py all_work "kitchen" "kitchen" files (file "jarvis" positive at_one wav)
      refl (λ p. refl) refl
