-- ===== src/Training/Removal.antt =====
-- That a device that is deleted leaves no capture (controller/em_training_captures.py).
use echo_voice_satellite.Prelude.{
  String, ◌≡◌, ◌≢◌, refl, sym, ap, subst, ◌∙◌, Bool, true, false, ◌&&◌, Option, none, some, [], ◌∷◌,
  if◌then◌else◌, ◌==◌, eq_iff, arith, Bool-cases, Option-cases, inl, inr, string_eq, is_given,
}
use echo_voice_satellite.Prelude.Dict.{get, remove, get-remove}
use echo_voice_satellite.Training.Files.{
  Bucket, Part, wav, trim, meta, part_eq, part_beq_iff, Name, FilePath, path_eq, path_beq_iff,
  Files, file, Content, unlink,
}
use echo_voice_satellite.Training.Store.{Names, delete_files, delete_device}
use echo_voice_satellite.Training.Cap.{AllWork}

-- What `unlink` leaves at a path
get-unlink :
    (works : FilePath → Bool) (m : String) (b : Bucket) (n : Name) (r : FilePath) (fs : Files)
    → AllWork works
    → get r (unlink works m b n fs) ≡ (
        if file m b n meta == r
        then none
        else if file m b n trim == r
        then none
        else if file m b n wav == r
        then none
        else get r fs)
unfolding unlink
get-unlink works m b n r fs all =
    let one = remove (file m b n wav) fs in
    let two = remove (file m b n trim) one in
    rw (all (file m b n wav), all (file m b n trim), all (file m b n meta))
      (get-remove (file m b n meta) r two
        ∙ ap (λ o. if file m b n meta == r then none else o)
            (get-remove (file m b n trim) r one
              ∙ ap (λ o. if file m b n trim == r then none else o)
                  (get-remove (file m b n wav) r fs)))

unlink-none :
    (works : FilePath → Bool) (m : String) (b : Bucket) (n : Name) (r : FilePath) (fs : Files)
    → AllWork works
    → get r fs ≡ none
    → get r (unlink works m b n fs) ≡ none
unlink-none works m b n r fs all e =
    get-unlink works m b n r fs all
    ∙ rw e (flat (file m b n meta == r) (file m b n trim == r) (file m b n wav == r))
  where
    flat :
        (x y z : Bool)
        → ◌≡◌ {A = Option Content}
            (if x then none else if y then none else if z then none else none)
            none
    flat x y z = ground arith

-- A file of another name is left.
unlink_other :
    (works : FilePath → Bool) (m : String) (b : Bucket) (n : Name) (r : FilePath) (fs : Files)
    → AllWork works
    → n ≢ r.name
    → get r (unlink works m b n fs) ≡ get r fs
unlink_other works m b n r fs all ne =
    get-unlink works m b n r fs all ∙ rw (apart meta, apart trim, apart wav) refl
  where
    apart : (x : Part) → (file m b n x == r) ≡ false
    apart x = elim (Bool-cases (file m b n x == r)) [
      | inl e ↦ absurd (ne (ap (λ (f : FilePath). f.name) ((path_beq_iff (file m b n x) r).0 e)))
      | inr e ↦ e
    ]

-- A capture that is removed is gone.
unlink_gone :
    (works : FilePath → Bool) (m : String) (b : Bucket) (n : Name) (fs : Files)
    → AllWork works
    → get (file m b n wav) (unlink works m b n fs) ≡ none
unlink_gone works m b n fs all =
    get-unlink works m b n (file m b n wav) fs all
    ∙ rw ((path_beq_iff (file m b n wav) (file m b n wav)).1 refl)
        (flat (file m b n meta == file m b n wav) (file m b n trim == file m b n wav))
  where
    flat :
        (x y : Bool)
        → ◌≡◌ {A = Option Content}
            (if x then none else if y then none else if true then none else none)
            none
    flat x y = ground arith

nothing : (r : FilePath) → is_given (get {V = Content} r []) ≢ true
unfolding get
nothing r e = cc

behind :
    (p r : FilePath) (c : Content) (rest : Files)
    → (p == r) ≡ false
    → is_given (get r ((p, c) ∷ rest)) ≡ true
    → is_given (get r rest) ≡ true
unfolding get
behind p r c rest e there = rw (e, get) at there

module _ (works : FilePath → Bool) (safe : String) (all : AllWork works) where
  -- What the round for one file leaves
  round : FilePath → Files → Files
  round p fs =
      if p.part == wav && p.name.device == safe then unlink works p.model p.bucket p.name fs else fs

  round-none : (p r : FilePath) (fs : Files) → get r fs ≡ none → get r (round p fs) ≡ none
  unfolding round
  round-none p r fs e = elim (Bool-cases (p.part == wav && p.name.device == safe)) [
    | inl its ↦ rw its (unlink-none works p.model p.bucket p.name r fs all e)
    | inr no_one ↦ rw no_one e
  ]

  round_other : (p r : FilePath) (fs : Files) → r.name.device ≢ safe → get r (round p fs) ≡ get r fs
  unfolding round
  round_other p r fs other = elim (Bool-cases (p.part == wav && p.name.device == safe)) [
    | inr no_one ↦ rw no_one refl
    | inl its ↦
        let device : p.name.device ≡ safe = ground (arith, eq_iff p.name.device safe) in
        rw its (
          unlink_other works p.model p.bucket p.name r fs all
            (λ e. other (ap (λ (n : Name). n.device) (sym e) ∙ device)))
  ]

  round_gone :
      (p : FilePath) (fs : Files) → p.part ≡ wav → p.name.device ≡ safe → get p (round p fs) ≡ none
  unfolding round
  round_gone p fs part device =
      let its : (p.part == wav && p.name.device == safe) ≡ true =
        ground (arith, part_beq_iff p.part wav, eq_iff p.name.device safe) in
      let same : file p.model p.bucket p.name wav ≡ p = ground arith in
      rw its (
        subst (λ q. get q (unlink works p.model p.bucket p.name fs) ≡ none) same
          (unlink_gone works p.model p.bucket p.name fs all))

  delete_files-none :
      (rest fs : Files) (r : FilePath)
      → get r fs ≡ none
      → get r (delete_files works safe rest fs) ≡ none
  unfolding delete_files round
  delete_files-none [] fs r e = e
  delete_files-none ((p, c) ∷ rest) fs r e =
      delete_files-none rest (round p fs) r (round-none p r fs e)

  delete_files_other :
      (rest fs : Files) (r : FilePath)
      → r.name.device ≢ safe
      → get r (delete_files works safe rest fs) ≡ get r fs
  unfolding delete_files round
  delete_files_other [] fs r other = refl
  delete_files_other ((p, c) ∷ rest) fs r other =
      delete_files_other rest (round p fs) r other ∙ round_other p r fs other

  -- Of the files that are gone through, those of the device are gone.
  delete_files_gone :
      (rest fs : Files) (r : FilePath)
      → r.part ≡ wav
      → r.name.device ≡ safe
      → is_given (get r rest) ≡ true
      → get r (delete_files works safe rest fs) ≡ none
  unfolding delete_files round
  delete_files_gone [] fs r part device there = absurd (nothing r there)
  delete_files_gone ((p, c) ∷ rest) fs r part device there = elim (Bool-cases (p == r)) [
    | inl e ↦
        let same : r ≡ p = sym ((path_beq_iff p r).0 e) in
        delete_files-none rest (round p fs) r (
          subst (λ q. get q (round p fs) ≡ none) (sym same)
            (round_gone p fs (subst (λ q. q.part ≡ wav) same part)
              (subst (λ q. q.name.device ≡ safe) same device)))
    | inr e ↦ delete_files_gone rest (round p fs) r part device (behind p r c rest e there)
  ]

-- When a device was deleted, and the calls of the file system worked, no capture of it is left in any bucket of any
-- model, and every capture of another device is as it was.
pub delete_device-gone :
    (py : Names) (works : FilePath → Bool) (device safe : String) (fs : Files) (r : FilePath)
    → py.safe_device device ≡ some safe
    → AllWork works
    → r.part ≡ wav
    → let left = get r (delete_device py works device fs) in
      left ≡ (if r.name.device == safe then none else get r fs)
unfolding delete_device
delete_device-gone py works device safe fs r named all part =
    elim (Bool-cases (r.name.device == safe)) [
      | inr other ↦
          let apart : r.name.device ≢ safe =
            λ e. let yes_one = (eq_iff r.name.device safe).1 e in cc in
          rw (named, delete_device, other) (delete_files_other works safe all fs fs r apart)
      | inl own ↦
          rw (named, delete_device, own)
            (elim (Option-cases (get r fs)) [
              | inl none_there ↦ delete_files-none works safe all fs fs r none_there
              | inr (c, there) ↦
                  delete_files_gone works safe all fs fs r part ((eq_iff r.name.device safe).0 own)
                    (ap is_given there)
            ])
    ]
