-- ===== src/Training/Undo.antt =====
-- What a rename does, and that the renames of a label are undone where one fails
-- (controller/em_training_captures.py).
use echo_voice_satellite.Prelude.{
  ◌≡◌, ◌≢◌, refl, sym, ap, subst, ◌∙◌, inl, inr, Bool, true, false, not, ◌&&◌, Option, none, some,
  [], ◌∷◌, if◌then◌else◌, ◌==◌, All, Bool-cases, Option-cases,
}
use echo_voice_satellite.Prelude.Dict.{get, remove, get-put, get-remove}
use echo_voice_satellite.Training.Files.{
  bucket_eq, FilePath, path_eq, path_beq_iff, Files, is_file, rename, Content,
}
use echo_voice_satellite.Training.Label.{moving, rollback, Pairs}

-- What is where after a rename of a file that there is
get-rename :
    (p q r : FilePath) (fs : Files)
    → p ≢ q
    → get r (rename p q fs) ≡ (
        if is_file p fs
        then (if q == r then get p fs else if p == r then none else get r fs)
        else get r fs)
unfolding rename
get-rename p q r fs apart = elim (Option-cases (get p fs)) [
  | inl none_there ↦ rw (none_there, rename) refl
  | inr (c, there) ↦
      rw (there, rename)
        (get-put q r c (remove p fs) ∙ ap (λ x. if q == r then some c else x) (get-remove p r fs))
]

unequal : (p q : FilePath) → p ≢ q → (p == q) ≡ false
unequal p q apart = elim (Bool-cases (p == q)) [
  | inl e ↦ absurd (apart ((path_beq_iff p q).0 e))
  | inr e ↦ e
]

module _ (p q : FilePath) (fs : Files) (apart : p ≢ q) where
  pub rename_other : (r : FilePath) → p ≢ r → q ≢ r → get r (rename p q fs) ≡ get r fs
  rename_other r pr qr =
      get-rename p q r fs apart
      ∙ rw (unequal p r pr, unequal q r qr) (flat (is_file p fs) (get r fs))
    where
      flat : (b : Bool) (o : Option Content) → (if b then o else o) ≡ o
      flat true o = refl
      flat false o = refl

  module _ (there : is_file p fs ≡ true) where
    pub rename_to : get q (rename p q fs) ≡ get p fs
    rename_to = get-rename p q q fs apart ∙ rw (there, (path_beq_iff q q).1 refl) refl

    pub rename_from : get p (rename p q fs) ≡ none
    rename_from =
        get-rename p q p fs apart
        ∙ rw (there, unequal q p (λ e. apart (sym e)), (path_beq_iff p p).1 refl) refl

-- The same files, but for the path `q`.
abbrev pub Same : FilePath → Files → Files → Type 0
Same q fs gs = (r : FilePath) → q ≢ r → get r fs ≡ get r gs

-- None of the moves is from `q` or to it.
abbrev pub Clear : FilePath → Pairs → Type 0
Clear q ps = All (λ (p, t). (q ≢ p) × (q ≢ t)) ps

abbrev pub Apart : Pairs → Type 0
Apart ps = All (λ (p, t). p ≢ t) ps

rename-Same :
    (p q x : FilePath) (fs gs : Files)
    → p ≢ q
    → x ≢ p
    → Same x fs gs
    → Same x (rename p q fs) (rename p q gs)
rename-Same p q x fs gs apart other same r away =
    get-rename p q r fs apart ∙ rw (same p other, same r away) (sym (get-rename p q r gs apart))

-- Whether a move back is made
abbrev pub back : (FilePath → Bool) → FilePath → FilePath → Files → Bool
back works p q fs = is_file q fs && (not (is_file p fs) && works q)

abbrev pub undo : (FilePath → Bool) → FilePath → FilePath → Files → Files
undo works p q fs = if back works p q fs then rename q p fs else fs

undo-Same :
    (works : FilePath → Bool) (p q x : FilePath) (fs gs : Files)
    → p ≢ q
    → x ≢ p
    → x ≢ q
    → Same x fs gs
    → Same x (undo works p q fs) (undo works p q gs)
undo-Same works p q x fs gs apart xp xq same r away =
    let one : back works p q fs ≡ back works p q gs = rw (same q xq, same p xp) refl in
    elim (Bool-cases (back works p q gs)) [
      | inl made ↦ rw (one, made) (rename-Same q p x fs gs (λ e. apart (sym e)) xq same r away)
      | inr not_made ↦ rw (one, not_made) (same r away)
    ]

pub rollback-Same :
    (works : FilePath → Bool) (moved : Pairs) (x : FilePath) (fs gs : Files)
    → Apart moved
    → Clear x moved
    → Same x fs gs
    → Same x (rollback works moved fs) (rollback works moved gs)
unfolding rollback
rollback-Same works [] x fs gs apart clear same = same
rollback-Same works ((p, q) ∷ moved) x fs gs (ne, apart) ((xp, xq), clear) same =
    rollback-Same works moved x _ _ apart clear (undo-Same works p q x fs gs ne xp xq same)

-- A move and its undoing leave the files, but for the target.
pub undone :
    (works : FilePath → Bool) (p q : FilePath) (fs : Files)
    → p ≢ q
    → works q ≡ true
    → is_file p fs ≡ true
    → Same q (undo works p q (rename p q fs)) fs
undone works p q fs apart can there r away =
    let gs = rename p q fs in
    let at_target = rename_to p q fs apart there in
    let at_source = rename_from p q fs apart there in
    let back_there : is_file q gs ≡ true = rw at_target there in
    let made : back works p q gs ≡ true = rw (back_there, at_source, can) refl in
    let away' : q ≢ p = λ e. apart (sym e) in
    rw made (elim (Bool-cases (p == r)) [
      | inl same ↦
          let one : p ≡ r = (path_beq_iff p r).0 same in
          subst (λ s. get s (rename q p gs) ≡ get s fs) one
            (rename_to q p gs away' back_there ∙ at_target)
      | inr other ↦
          let pr : p ≢ r = λ e. let yes_same = (path_beq_iff p r).1 e in cc in
          rename_other q p gs away' r away pr ∙ rename_other p q fs apart r pr away
    ])

-- Each target is new to what was moved before.
abbrev pub Fresh : Pairs → Pairs → Type 0
Fresh [] moved = Unit
Fresh ((p, q) ∷ ps) moved =
    (p ≢ q) × Clear q moved × All (λ (p', q'). (q' ≢ p) × (q' ≢ q)) ps × Fresh ps moved

push-Fresh :
    (p q : FilePath) (ps moved : Pairs)
    → All (λ (p', q'). (q' ≢ p) × (q' ≢ q)) ps
    → Fresh ps moved
    → Fresh ps ((p, q) ∷ moved)
push-Fresh p q [] moved h f = tt
push-Fresh p q ((p', q') ∷ ps) moved (h, hs) (ne, clear, new, f) =
    (ne, (h, clear), new, push-Fresh p q ps moved hs f)

abbrev pub Away : FilePath → Pairs → Type 0
Away r ps = All (λ (p, q). q ≢ r) ps

-- A loop that ends by a rename that fails is undone, if the renames back work.
pub moving-undone :
    (works working : FilePath → Bool) (ps moved : Pairs) (fs old : Files) (r : FilePath)
    → ((p : FilePath) → working p ≡ true)
    → Fresh ps moved
    → Apart moved
    → Away r ps
    → get r (rollback working moved fs) ≡ get r old
    → let after = moving works ps moved fs in
      after.2 ≡ false → get r (rollback working after.1 after.0) ≡ get r old
unfolding moving
moving-undone works working [] moved fs old r can fresh apart away same failed = cc
moving-undone works working ((p, q) ∷ ps) moved fs old r can (ne, clear, new, fresh) apart
      (qr, away) same failed =
    elim (Bool-cases (is_file p fs)) [
      | inr none_there ↦
          rw (none_there, moving)
            (moving-undone works working ps moved fs old r can fresh apart away same
              (rw (none_there, moving) at failed))
      | inl there ↦ elim (Bool-cases (works p)) [
        | inr fails ↦ rw (there, fails, moving) same
        | inl moves ↦
            let gs = rename p q fs in
            let kept =
              rollback-Same working moved q _ fs apart clear
                (undone working p q fs ne (can q) there) r qr in
            rw (there, moves, moving)
              (moving-undone works working ps ((p, q) ∷ moved) gs old r can
                (push-Fresh p q ps moved new fresh) (ne, apart) away
                (unfold rollback in kept ∙ same) (rw (there, moves, moving) at failed))
      ]
    ]
