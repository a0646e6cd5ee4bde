-- ===== src/Training/Moves.antt =====
-- That a capture is labelled as a whole or not at all (controller/em_training_captures.py).
use echo_voice_satellite.Prelude.{
  ℕ, String, ◌≡◌, ◌≢◌, refl, sym, ap, subst, ◌∙◌, ◌⊎◌, inl, inr, Bool, true, false, Option, none,
  some, [], ◌∷◌, if◌then◌else◌, ◌==◌, All, Bool-cases, is_given,
}
use echo_voice_satellite.Prelude.Dict.{get}
use echo_voice_satellite.Training.Files.{
  Bucket, bucket_eq, bucket_beq_iff, Part, wav, trim, meta, Name, FilePath, path_eq, Files, file,
  is_file, rename, Content,
}
use echo_voice_satellite.Training.Store.{Names, resolve}
use echo_voice_satellite.Training.Undo.{
  rename_other, rename_to, rename_from, Clear, Apart, Fresh, Away, moving-undone,
}
use echo_voice_satellite.Training.Label.{
  moving, rollback, Pairs, pairs, settled, move, edited, label,
}

moving_other :
    (works : FilePath → Bool) (ps moved : Pairs) (fs : Files) (r : FilePath)
    → Apart ps
    → Clear r ps
    → get r (moving works ps moved fs).0 ≡ get r fs
unfolding moving
moving_other works [] moved fs r apart clear = refl
moving_other works ((p, q) ∷ ps) moved fs r (ne, apart) ((rp, rq), clear) =
    elim (Bool-cases (is_file p fs)) [
      | inr none_there ↦ rw (none_there, moving) (moving_other works ps moved fs r apart clear)
      | inl there ↦ elim (Bool-cases (works p)) [
        | inr fails ↦ rw (there, fails, moving) refl
        | inl moves ↦
            rw (there, moves, moving)
              (moving_other works ps ((p, q) ∷ moved) (rename p q fs) r apart clear
                ∙ rename_other p q fs ne r (λ e. rp (sym e)) (λ e. rq (sym e)))
      ]
    ]

-- The file of a pair has moved, if there was one.
abbrev pub HasMoved : Files → Files → FilePath × FilePath → Type 0
HasMoved before after (p, q) =
    (get q after ≡ (if is_file p before then get p before else get q before)) × (get p after ≡ none)

-- No path of a pair is that of another.
abbrev Distinct : Pairs → Type 0
Distinct [] = Unit
Distinct ((p, q) ∷ ps) = (p ≢ q) × Clear p ps × Clear q ps × Distinct ps

Distinct-Apart : (ps : Pairs) → Distinct ps → Apart ps
Distinct-Apart [] d = tt
Distinct-Apart ((p, q) ∷ ps) (ne, cp, cq, d) = (ne, Distinct-Apart ps d)

HasMoved-before :
    (p q : FilePath) (fs after : Files) (ps : Pairs)
    → p ≢ q
    → Clear p ps
    → Clear q ps
    → All (HasMoved (rename p q fs) after) ps
    → All (HasMoved fs after) ps
HasMoved-before p q fs after [] ne cp cq h = tt
HasMoved-before p q fs after ((p', q') ∷ ps) ne ((pp, pq), cp) ((qp, qq), cq) ((to, from), h) =
    let at_source = rename_other p q fs ne p' pp qp in
    let at_target = rename_other p q fs ne q' pq qq in
    ((rw (at_source, at_target) at to, from), HasMoved-before p q fs after ps ne cp cq h)

-- One round of the loop
moving_skips :
    (works : FilePath → Bool) (p q : FilePath) (ps moved : Pairs) (fs : Files)
    → is_file p fs ≡ false
    → moving works ((p, q) ∷ ps) moved fs ≡ moving works ps moved fs
unfolding moving
moving_skips works p q ps moved fs none_there = rw none_there refl

moving_moves :
    (works : FilePath → Bool) (p q : FilePath) (ps moved : Pairs) (fs : Files)
    → is_file p fs ≡ true
    → works p ≡ true
    → moving works ((p, q) ∷ ps) moved fs ≡ moving works ps ((p, q) ∷ moved) (rename p q fs)
unfolding moving
moving_moves works p q ps moved fs there moves = rw (there, moves) refl

not_given : (o : Option Content) → is_given o ≡ false → o ≡ none
not_given none e = refl
not_given (some c) e = cc

absent :
    (p q : FilePath) (fs : Files)
    → is_file p fs ≡ false
    → (if is_file p fs then get p fs else get q fs) ≡ get q fs
absent p q fs e = rw e refl

present :
    (p q : FilePath) (fs : Files)
    → is_file p fs ≡ true
    → (if is_file p fs then get p fs else get q fs) ≡ get p fs
present p q fs e = rw e refl

stuck :
    (works : FilePath → Bool) (p q : FilePath) (ps moved : Pairs) (fs : Files)
    → is_file p fs ≡ true
    → works p ≡ false
    → (moving works ((p, q) ∷ ps) moved fs).2 ≢ true
unfolding moving
stuck works p q ps moved fs there fails = rw (there, fails) (λ e. cc)

moving-HasMoved :
    (works : FilePath → Bool) (ps moved : Pairs) (fs : Files)
    → Distinct ps
    → (moving works ps moved fs).2 ≡ true
    → All (HasMoved fs (moving works ps moved fs).0) ps
moving-HasMoved works [] moved fs d done = tt
moving-HasMoved works ((p, q) ∷ ps) moved fs (ne, cp, cq, d) done =
    let apart = Distinct-Apart ps d in
    elim (Bool-cases (is_file p fs)) [
      | inr none_there ↦
          let skips = moving_skips works p q ps moved fs none_there in
          subst (λ a. All (HasMoved fs a.0) ((p, q) ∷ ps)) (sym skips)
            (
              (
                moving_other works ps moved fs q apart cq ∙ sym (absent p q fs none_there),
                moving_other works ps moved fs p apart cp ∙ not_given (get p fs) none_there,
              ),
              moving-HasMoved works ps moved fs d (ap (λ a. a.2) (sym skips) ∙ done),
            )
      | inl there ↦ elim (Bool-cases (works p)) [
        | inr fails ↦ absurd (stuck works p q ps moved fs there fails done)
        | inl moves ↦
            let gs = rename p q fs in
            let goes = moving_moves works p q ps moved fs there moves in
            let rest =
              moving-HasMoved works ps ((p, q) ∷ moved) gs d (ap (λ a. a.2) (sym goes) ∙ done) in
            subst (λ a. All (HasMoved fs a.0) ((p, q) ∷ ps)) (sym goes)
              (
                (
                  moving_other works ps ((p, q) ∷ moved) gs q apart cq
                      ∙ rename_to p q fs ne there
                      ∙ sym (present p q fs there),
                  moving_other works ps ((p, q) ∷ moved) gs p apart cp
                      ∙ rename_from p q fs ne there,
                ),
                HasMoved-before p q fs (moving works ps ((p, q) ∷ moved) gs).0 ps ne cp cq rest,
              )
      ]
    ]

wt : wav ≢ trim
wt = λ e. cc

wm : wav ≢ meta
wm = λ e. cc

tm : trim ≢ meta
tm = λ e. cc

-- The three files of a capture in two buckets are six.
pairs-Distinct : (m : String) (b t : Bucket) (n : Name) → b ≢ t → Distinct (pairs m b t n)
pairs-Distinct m b t n other =
    let moved : (p : Part) → file m b n p ≢ file m t n p =
      λ p e. other (ap (λ (f : FilePath). f.bucket) e) in
    let apart : (c d : Bucket) (p q : Part) → p ≢ q → file m c n p ≢ file m d n q =
      λ c d p q ne e. ne (ap (λ (f : FilePath). f.part) e) in
    (
      moved wav,
      (
        (apart b b wav trim wt, apart b t wav trim wt),
        ((apart b b wav meta wm, apart b t wav meta wm), tt),
      ),
      (
        (apart t b wav trim wt, apart t t wav trim wt),
        ((apart t b wav meta wm, apart t t wav meta wm), tt),
      ),
      (
        moved trim,
        ((apart b b trim meta tm, apart b t trim meta tm), tt),
        ((apart t b trim meta tm, apart t t trim meta tm), tt),
        (moved meta, tt, tt, tt),
      ),
    )

Distinct-Fresh : (ps : Pairs) → Distinct ps → Fresh ps []
Distinct-Fresh [] d = tt
Distinct-Fresh ((p, q) ∷ ps) (ne, cp, cq, d) = (ne, tt, others p q ps cp cq, Distinct-Fresh ps d)
  where
    others :
        (p q : FilePath) (ps : Pairs)
        → Clear p ps
        → Clear q ps
        → All (λ (p', q'). (q' ≢ p) × (q' ≢ q)) ps
    others p q [] cp cq = tt
    others p q ((p', q') ∷ ps) ((pp, pq), cp) ((qp, qq), cq) =
        (((λ e. pq (sym e)), (λ e. qq (sym e))), others p q ps cp cq)

settled_done :
    (back : FilePath → Bool) (x : Files × Pairs × Bool) → x.2 ≡ true → settled back x ≡ (x.0, true)
settled_done back (fs, moved, true) e = refl
settled_done back (fs, moved, false) e = cc

settled_failed :
    (back : FilePath → Bool) (x : Files × Pairs × Bool)
    → x.2 ≡ false
    → settled back x ≡ (rollback back x.1 x.0, false)
settled_failed back (fs, moved, true) e = cc
settled_failed back (fs, moved, false) e = refl

move-settled :
    (works back : FilePath → Bool) (m : String) (b t : Bucket) (n : Name) (fs : Files)
    → b ≢ t
    → move works back m b t n fs ≡ settled back (moving works (pairs m b t n) [] fs)
unfolding move
move-settled works back m b t n fs other = elim (Bool-cases (b == t)) [
  | inl same ↦ absurd (other ((bucket_beq_iff b t).0 same))
  | inr apart ↦ rw apart refl
]

-- The capture and the files beside it are in `t`, or all is as it was, but for files that stood there.
abbrev pub WholeMove : String → Bucket → Bucket → Name → Files → Files × Bool → Type 0
WholeMove m b t n fs after =
    ((after.1 ≡ true) × All (HasMoved fs after.0) (pairs m b t n))
    ⊎ ((after.1 ≡ false) × ((r : FilePath) → Away r (pairs m b t n) → get r after.0 ≡ get r fs))

move-whole :
    (works back : FilePath → Bool) (m : String) (b t : Bucket) (n : Name) (fs : Files)
    → ((p : FilePath) → back p ≡ true)
    → b ≢ t
    → WholeMove m b t n fs (move works back m b t n fs)
move-whole works back m b t n fs can other =
    let ps = pairs m b t n in
    let d = pairs-Distinct m b t n other in
    let run = moving works ps [] fs in
    let is_run = move-settled works back m b t n fs other in
    elim (Bool-cases run.2) [
      | inl done ↦
          let ends = is_run ∙ settled_done back run done in
          rw ends (inl (refl, moving-HasMoved works ps [] fs d done))
      | inr failed ↦
          let ends = is_run ∙ settled_failed back run failed in
          rw ends (
            inr (
              refl,
              λ r away.
                  moving-undone works back ps [] fs fs r can (Distinct-Fresh ps d) tt away
                    (unfold rollback in refl) failed,
            ))
    ]

labelled :
    (py : Names) (works back : FilePath → Bool) (writes : Bool) (m : String) (n : Name)
    (b t : Bucket) (start end : Option ℕ) (fs gs : Files)
    → resolve py m n fs ≡ some b
    → edited writes m b n start end fs ≡ (gs, true)
    → label py works back writes m n t start end fs ≡ move works back m b t n gs
unfolding label
labelled py works back writes m n b t start end fs gs found written =
    rw (found, written, label) refl

-- A capture that is labelled goes to the other bucket with the files beside it, or stays as a whole: if any rename
-- fails, and those back do not, every file is as it was after the write of the trim, but for files that stood at the
-- targets, and the label is refused.
pub label-whole :
    (py : Names) (works back : FilePath → Bool) (writes : Bool) (m : String) (n : Name)
    (b t : Bucket) (start end : Option ℕ) (fs gs : Files)
    → ((p : FilePath) → back p ≡ true)
    → resolve py m n fs ≡ some b
    → edited writes m b n start end fs ≡ (gs, true)
    → b ≢ t
    → WholeMove m b t n gs (label py works back writes m n t start end fs)
unfolding label
label-whole py works back writes m n b t start end fs gs can found written other =
    let is_move : label py works back writes m n t start end fs ≡ move works back m b t n gs =
      labelled py works back writes m n b t start end fs gs found written in
    subst (WholeMove m b t n gs) (sym is_move) (move-whole works back m b t n gs can other)
