-- ===== src/Training/Cap.antt =====
-- That the queue of captures to label stays within its cap (controller/em_training_captures.py).
use echo_voice_satellite.Prelude.{
  ℕ, ◌+◌, ◌≤◌, String, ◌≡◌, ◌≢◌, refl, sym, ap, subst, ◌∙◌, ◌⊎◌, inl, inr, Bool, true, false, not,
  ◌||◌, some, List, [], ◌∷◌, ◌++◌, ◌==◌, All, arith, Bool-cases, Option-cases, take, drop, select,
  length, length-take_le, take-drop, list_eq, nat_eq, string_eq, elem, leb,
}
use echo_voice_satellite.Prelude.Dict.{put, remove}
use echo_voice_satellite.Training.Files.{
  Bucket, untriaged, bucket_eq, wav, trim, meta, Name, name_eq, name_beq_iff, FilePath, path_eq,
  Files, file, audio, unlink, names_in, newest_first, list_captures, insert_newest,
}
use echo_voice_satellite.Training.Store.{
  Names, prune_untriaged, unlink_all, save, filename, is_empty,
}
use echo_voice_satellite.Training.Newest.{newest_first-Descends, All-among, drop-le, elem-rest}
use echo_voice_satellite.Training.Listing.{names_in-remove, names_in-remove_other, without}

trim_other : trim ≢ wav
trim_other = λ e. cc

meta_other : meta ≢ wav
meta_other = λ e. cc

-- All calls of the file system work.
abbrev pub AllWork : (FilePath → Bool) → Type 0
AllWork works = (p : FilePath) → works p ≡ true

names_in-unlink :
    (works : FilePath → Bool) (m : String) (b : Bucket) (n : Name) (fs : Files)
    → AllWork works
    → names_in m b (unlink works m b n fs) ≡ without n (names_in m b fs)
unfolding unlink
names_in-unlink works m b n fs all =
    let one = remove (file m b n wav) fs in
    rw (all (file m b n wav), all (file m b n trim), all (file m b n meta))
      (names_in-remove_other m b n meta (remove (file m b n trim) one) meta_other
        ∙ names_in-remove_other m b n trim one trim_other
        ∙ names_in-remove m b n fs)

-- The captures that are not among those to remove
abbrev rest_of : List Name → List Name → List Name
rest_of ns ks = select (λ k. not (elem k ns)) ks

rest_of-cons : (n : Name) (ns ks : List Name) → rest_of ns (without n ks) ≡ rest_of (n ∷ ns) ks
rest_of-cons n ns [] = refl
rest_of-cons n ns (k ∷ ks) = elim (Bool-cases (k == n)) [
  | inl e ↦ rw (e, rest_of-cons n ns ks) refl
  | inr e ↦ elim (Bool-cases (elem k ns)) [
    | inl f ↦ rw (e, f, rest_of-cons n ns ks) refl
    | inr f ↦ rw (e, f, rest_of-cons n ns ks) refl
  ]
]

names_in-unlink_all :
    (works : FilePath → Bool) (m : String) (b : Bucket) (ns : List Name) (fs : Files)
    → AllWork works
    → names_in m b (unlink_all works m b ns fs) ≡ rest_of ns (names_in m b fs)
names_in-unlink_all works m b [] fs all = sym (keep_all (names_in m b fs))
  where
    keep_all : (ks : List Name) → rest_of [] ks ≡ ks
    keep_all [] = refl
    keep_all (k ∷ ks) = ap (λ r. k ∷ r) (keep_all ks)
names_in-unlink_all works m b (n ∷ ns) fs all =
    names_in-unlink_all works m b ns (unlink works m b n fs) all
    ∙ ap (rest_of ns) (names_in-unlink works m b n fs all)
    ∙ rest_of-cons n ns (names_in m b fs)

-- Sorting changes no count.
length-insert :
    (p : Name → Bool) (n : Name) (ks : List Name)
    → length (select p (insert_newest n ks)) ≡ length (select p (n ∷ ks))
length-insert p n [] = refl
length-insert p n (k ∷ ks) = elim (Bool-cases (leb k.ts_ms n.ts_ms)) [
  | inl first ↦ rw first refl
  | inr later ↦ rw later (ground (arith, length-insert p n ks))
]

length-newest_first :
    (p : Name → Bool) (ks : List Name) → length (select p (newest_first ks)) ≡ length (select p ks)
unfolding newest_first
length-newest_first p [] = refl
length-newest_first p (k ∷ ks) =
    length-insert p k (newest_first ks) ∙ ground (arith, length-newest_first p ks)

select-append :
    (p : Name → Bool) (xs ys : List Name)
    → length (select p (xs ++ ys)) ≡ length (select p xs) + length (select p ys)
select-append p [] ys = omega arith
select-append p (x ∷ xs) ys = ground (arith, select-append p xs ys)

select-le : (p : Name → Bool) (xs : List Name) → length (select p xs) ≤ length xs
select-le p [] = omega arith
select-le p (x ∷ xs) = ground (arith, select-le p xs)

select_none : (p : Name → Bool) (xs : List Name) → All (λ x. p x ≡ false) xs → select p xs ≡ []
select_none p [] h = refl
select_none p (x ∷ xs) (e, h) = rw (e, select_none p xs h) refl

elem_self : (ds : List Name) → All (λ d. elem d ds ≡ true) ds
elem_self [] = tt
elem_self (d ∷ ds) = (ground (arith, (name_beq_iff d d).1 refl), weaken d ds ds (elem_self ds))
  where
    weaken :
        (d : Name) (es ds : List Name)
        → All (λ x. elem x es ≡ true) ds
        → All (λ x. elem x (d ∷ es) ≡ true) ds
    weaken d es [] h = tt
    weaken d es (x ∷ ds) (e, h) = (ground arith, weaken d es ds h)

kept-le : (cap : ℕ) (ks : List Name) → length (rest_of (drop cap (newest_first ks)) ks) ≤ cap
kept-le cap ks =
    let ys = newest_first ks in
    let ds = drop cap ys in
    let p = λ (k : Name). not (elem k ds) in
    let gone : select p ds ≡ [] = select_none p ds (All-not ds ds (elem_self ds)) in
    let split : select p (take cap ys ++ ds) ≡ select p ys = ap (select p) (take-drop cap ys) in
    omega (
      arith,
      length-newest_first p ks,
      ap length split,
      select-append p (take cap ys) ds,
      ap length gone,
      select-le p (take cap ys),
      length-take_le {0} cap ys,
    )
  where
    All-not :
        (es ds : List Name) → All (λ d. elem d es ≡ true) ds → All (λ d. not (elem d es) ≡ false) ds
    All-not es [] h = tt
    All-not es (d ∷ ds) (e, h) = (ap not e, All-not es ds h)

-- Sorting keeps what there is.
elem-insert : (x n : Name) (ks : List Name) → (elem x (insert_newest n ks)) ≡ (x == n || elem x ks)
elem-insert x n [] = refl
elem-insert x n (k ∷ ks) = elim (Bool-cases (leb k.ts_ms n.ts_ms)) [
  | inl e ↦ rw e refl
  | inr e ↦ rw (e, elem-insert x n ks) (swap (x == k) (x == n) (elem x ks))
]
  where
    swap : (a b c : Bool) → (a || (b || c)) ≡ (b || (a || c))
    swap a b c = ground arith

elem-newest_first : (x : Name) (ks : List Name) → elem x (newest_first ks) ≡ elem x ks
unfolding newest_first
elem-newest_first x [] = refl
elem-newest_first x (k ∷ ks) =
    elem-insert x k (newest_first ks) ∙ ap (λ e. x == k || e) (elem-newest_first x ks)

elem-append : (x : Name) (xs ys : List Name) → elem x (xs ++ ys) ≡ (elem x xs || elem x ys)
elem-append x [] ys = refl
elem-append x (y ∷ xs) ys =
    ap (λ e. x == y || e) (elem-append x xs ys) ∙ assoc (x == y) (elem x xs) (elem x ys)
  where
    assoc : (a b c : Bool) → (a || (b || c)) ≡ ((a || b) || c)
    assoc a b c = ground arith

-- What is kept is among the newest.
kept_newest :
    (cap : ℕ) (all ks : List Name)
    → All (λ k. elem k all ≡ true) ks
    → All
        (λ k. elem k (take cap (newest_first all)) ≡ true)
        (rest_of (drop cap (newest_first all)) ks)
kept_newest cap all [] h = tt
kept_newest cap all (k ∷ ks) (e, h) =
    let ys = newest_first all in
    let split : elem k (take cap ys) || elem k (drop cap ys) ≡ true =
      sym (elem-append k (take cap ys) (drop cap ys))
      ∙ ap (elem k) (take-drop cap ys)
      ∙ elem-newest_first k all
      ∙ e in
    elim (Bool-cases (elem k (drop cap ys))) [
      | inl dropped ↦ rw dropped (kept_newest cap all ks h)
      | inr kept ↦
          rw kept (
            left (elem k (take cap ys)) (elem k (drop cap ys)) split kept,
            kept_newest cap all ks h,
          )
    ]
  where
    left : (a b : Bool) → (a || b) ≡ true → b ≡ false → a ≡ true
    left a b s f = ground arith

names_in-prune :
    (py : Names) (works : FilePath → Bool) (m : String) (cap : ℕ) (fs : Files)
    → AllWork works
    → py.is_model m ≡ true
    → let ks = names_in m untriaged fs in
      names_in m untriaged (prune_untriaged py works m cap fs)
      ≡ rest_of (drop cap (newest_first ks)) ks
unfolding prune_untriaged list_captures
names_in-prune py works m cap fs all known = rw known (
    names_in-unlink_all works m untriaged (drop cap (newest_first (names_in m untriaged fs))) fs
      all)

-- A save that answers with a name has written the capture and pruned.
saved_as :
    (py : Names) (works : FilePath → Bool) (m device : String) (pcm : List ℕ) (kind : String)
    (milli cap ts : ℕ) (fs : Files) (n : Name)
    → let after = save py works m device pcm kind milli cap ts fs in
      after.1 ≡ some n
      → (after.0 ≡ prune_untriaged py works m cap (put (file m untriaged n wav) (audio pcm) fs))
        × (py.is_model m ≡ true)
unfolding save
saved_as py works m device pcm kind milli cap ts fs n e =
    elim (Option-cases (filename py device ts kind milli)) [
      | inl f ↦ let wrong : ⊥ = ground arith in elim wrong [ ]
      | inr (k, f) ↦ elim (Bool-cases (not (py.is_model m) || is_empty pcm)) [
        | inl refuses ↦ let wrong : ⊥ = ground arith in elim wrong [ ]
        | inr g ↦
            let same : k ≡ n = ground arith in
            let known : py.is_model m ≡ true = ground arith in
            (
              subst
                  (λ x.
                    (save py works m device pcm kind milli cap ts fs).0
                    ≡ prune_untriaged py works m cap (put (file m untriaged x wav) (audio pcm) fs))
                  same (rw (f, save, g) refl),
              known,
            )
      ]
    ]

-- A capture that was there is kept, or it is one of those beyond the first `cap` and no later than any that is kept.
abbrev pub SortedOut : ℕ → List Name → List Name → Name → Type 0
SortedOut cap there kept d =
    (elem d kept ≡ true)
    ⊎ ((elem d (drop cap (newest_first there)) ≡ true) × All (λ k. d.ts_ms ≤ k.ts_ms) kept)

kept_latest :
    (cap : ℕ) (all ds : List Name)
    → All (λ d. elem d all ≡ true) ds
    → All (SortedOut cap all (rest_of (drop cap (newest_first all)) all)) ds
kept_latest cap all [] h = tt
kept_latest cap all (d ∷ ds) (e, h) =
    let ys = newest_first all in
    (
      elim (Bool-cases (elem d (drop cap ys))) [
        | inl dropped ↦ inr (
          dropped,
          All-among (λ k. d.ts_ms ≤ k.ts_ms) (take cap ys) (rest_of (drop cap ys) all)
              (drop-le cap d ys (newest_first-Descends all) dropped)
              (kept_newest cap all all (elem_self all)),
        )
        | inr kept ↦ inl (elem-rest d (drop cap ys) all e kept)
      ],
      kept_latest cap all ds h,
    )

-- After a capture that was saved, if the calls of the file system work, the queue of its model holds `cap` captures at
-- most, which are among those that were there and the new one. Of these, one that is gone stood behind the first `cap`
-- in the order of the list, and is no later than any that is left.
pub save-cap :
    (py : Names) (works : FilePath → Bool) (m device : String) (pcm : List ℕ) (kind : String)
    (milli cap ts : ℕ) (fs : Files) (n : Name)
    → AllWork works
    → (save py works m device pcm kind milli cap ts fs).1 ≡ some n
    → let there = names_in m untriaged (put (file m untriaged n wav) (audio pcm) fs) in
      let kept = names_in m untriaged (save py works m device pcm kind milli cap ts fs).0 in
      (length kept ≤ cap)
      × All (λ k. elem k (take cap (newest_first there)) ≡ true) kept
      × All (SortedOut cap there kept) there
save-cap py works m device pcm kind milli cap ts fs n all e =
    let (after, known) = saved_as py works m device pcm kind milli cap ts fs n e in
    let gs = put (file m untriaged n wav) (audio pcm) fs in
    let there = names_in m untriaged gs in
    let kept = ap (names_in m untriaged) after ∙ names_in-prune py works m cap gs all known in
    subst
      (λ ks.
        (length ks ≤ cap)
        × All (λ k. elem k (take cap (newest_first there)) ≡ true) ks
        × All (SortedOut cap there ks) there)
      (sym kept)
      (
        kept-le cap there,
        kept_newest cap there there (elem_self there),
        kept_latest cap there there (elem_self there),
      )
