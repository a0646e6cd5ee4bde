-- ===== src/Training/Listing.antt =====
-- What removing a file leaves of the captures of a bucket (controller/em_training_captures.py).
use echo_voice_satellite.Prelude.{
  String, ◌≡◌, ◌≢◌, refl, sym, ap, ◌∙◌, inl, inr, Bool, true, false, not, ◌&&◌, List, [], ◌∷◌, ◌==◌,
  arith, Bool-cases, select, list_eq, nat_eq, string_eq,
}
use echo_voice_satellite.Prelude.Dict.{remove}
use echo_voice_satellite.Training.Files.{
  Bucket, bucket_eq, Part, wav, part_eq, part_beq_iff, Name, name_eq, FilePath, path_eq, Files,
  file, Content, names_in,
}

-- Whether a file is the WAV of a capture of the bucket
abbrev counts : String → Bucket → FilePath → Bool
counts m b p = (p.model == m && p.bucket == b) && p.part == wav

both : (a n w : Bool) → (a && w) ≡ true → (a && (n && w)) ≡ n
both a n w e = ground arith

neither : (a n w : Bool) → (a && w) ≡ false → (a && (n && w)) ≡ false
neither a n w e = ground arith

last_true : (a n x : Bool) → (a && (n && x)) ≡ true → x ≡ true
last_true a n x e = ground arith

and_false : (a w : Bool) → w ≡ false → (a && w) ≡ false
and_false a w e = ground arith

other_part :
    (m : String) (b : Bucket) (n : Name) (x : Part) (p : FilePath)
    → x ≢ wav
    → (p == file m b n x) ≡ true
    → counts m b p ≡ false
other_part m b n x p ne e =
    let here : p.part ≡ x =
      (part_beq_iff p.part x).0
        (last_true (p.model == m && p.bucket == b) (p.name == n) (p.part == x) e) in
    and_false (p.model == m && p.bucket == b) (p.part == wav) (elim (Bool-cases (p.part == wav)) [
      | inl w ↦ absurd (ne (sym here ∙ (part_beq_iff p.part wav).0 w))
      | inr w ↦ w
    ])

-- The WAV of a capture counts as the capture, and a file that does not count is not it.
same_wav :
    (m : String) (b : Bucket) (n : Name) (p : FilePath)
    → counts m b p ≡ true
    → (p == file m b n wav) ≡ (p.name == n)
same_wav m b n p e = both (p.model == m && p.bucket == b) (p.name == n) (p.part == wav) e

not_wav :
    (m : String) (b : Bucket) (n : Name) (p : FilePath)
    → counts m b p ≡ false
    → (p == file m b n wav) ≡ false
not_wav m b n p e = neither (p.model == m && p.bucket == b) (p.name == n) (p.part == wav) e

-- The names of a file and those behind it
names_in-counts :
    (m : String) (b : Bucket) (p : FilePath) (c : Content) (fs : Files)
    → counts m b p ≡ true
    → names_in m b ((p, c) ∷ fs) ≡ p.name ∷ names_in m b fs
unfolding names_in
names_in-counts m b p c fs e = rw e refl

names_in-other :
    (m : String) (b : Bucket) (p : FilePath) (c : Content) (fs : Files)
    → counts m b p ≡ false
    → names_in m b ((p, c) ∷ fs) ≡ names_in m b fs
unfolding names_in
names_in-other m b p c fs e = rw e refl

-- Removing the head, or not
remove_head :
    (q p : FilePath) (c : Content) (fs : Files)
    → (p == q) ≡ true
    → remove q ((p, c) ∷ fs) ≡ remove q fs
unfolding remove
remove_head q p c fs e = rw e refl

remove_tail :
    (q p : FilePath) (c : Content) (fs : Files)
    → (p == q) ≡ false
    → remove q ((p, c) ∷ fs) ≡ (p, c) ∷ remove q fs
unfolding remove
remove_tail q p c fs e = rw e refl

pub names_in-remove_other :
    (m : String) (b : Bucket) (n : Name) (x : Part) (fs : Files)
    → x ≢ wav
    → names_in m b (remove (file m b n x) fs) ≡ names_in m b fs
names_in-remove_other m b n x [] ne = unfold remove names_in in refl
names_in-remove_other m b n x ((p, c) ∷ fs) ne =
    let q = file m b n x in
    let rest = names_in-remove_other m b n x fs ne in
    elim (Bool-cases (p == q)) [
      | inl e ↦
          ap (names_in m b) (remove_head q p c fs e)
          ∙ rest
          ∙ sym (names_in-other m b p c fs (other_part m b n x p ne e))
      | inr e ↦ ap (names_in m b) (remove_tail q p c fs e) ∙ elim (Bool-cases (counts m b p)) [
        | inl k ↦
            names_in-counts m b p c (remove q fs) k
            ∙ ap (λ ns. p.name ∷ ns) rest
            ∙ sym (names_in-counts m b p c fs k)
        | inr k ↦ names_in-other m b p c (remove q fs) k ∙ rest ∙ sym (names_in-other m b p c fs k)
      ]
    ]

abbrev pub without : Name → List Name → List Name
without n ns = select (λ k. not (k == n)) ns

pub names_in-remove :
    (m : String) (b : Bucket) (n : Name) (fs : Files)
    → names_in m b (remove (file m b n wav) fs) ≡ without n (names_in m b fs)
names_in-remove m b n [] = unfold remove names_in in refl
names_in-remove m b n ((p, c) ∷ fs) =
    let q = file m b n wav in
    let rest = names_in-remove m b n fs in
    elim (Bool-cases (counts m b p)) [
      | inr k ↦
          ap (names_in m b) (remove_tail q p c fs (not_wav m b n p k))
          ∙ names_in-other m b p c (remove q fs) k
          ∙ rest
          ∙ ap (without n) (sym (names_in-other m b p c fs k))
      | inl k ↦
          let counted = ap (without n) (sym (names_in-counts m b p c fs k)) in
          elim (Bool-cases (p.name == n)) [
            | inl e ↦
                ap (names_in m b) (remove_head q p c fs (same_wav m b n p k ∙ e))
                ∙ rest
                ∙ drops p.name n (names_in m b fs) e
                ∙ counted
            | inr e ↦
                ap (names_in m b) (remove_tail q p c fs (same_wav m b n p k ∙ e))
                ∙ names_in-counts m b p c (remove q fs) k
                ∙ ap (λ ns. p.name ∷ ns) rest
                ∙ keeps p.name n (names_in m b fs) e
                ∙ counted
          ]
    ]
  where
    drops : (k n : Name) (ns : List Name) → (k == n) ≡ true → without n ns ≡ without n (k ∷ ns)
    drops k n ns e = rw e refl

    keeps : (k n : Name) (ns : List Name) → (k == n) ≡ false → k ∷ without n ns ≡ without n (k ∷ ns)
    keeps k n ns e = rw e refl
