-- ===== src/Training/Room.antt =====
-- That a queue with room for one capture more is not pruned (controller/em_training_captures.py).
use echo_voice_satellite.Prelude.{
  ℕ, zero, suc, ◌+◌, ◌≤◌, String, ◌≡◌, refl, ap, ◌∙◌, inl, inr, Bool, true, false, List, [], ◌∷◌,
  ◌==◌, ◌&&◌, arith, Bool-cases, drop, length, list_eq, nat_eq, string_eq, leb,
}
use echo_voice_satellite.Prelude.Dict.{put}
use echo_voice_satellite.Training.Files.{
  Bucket, untriaged, bucket_eq, part_eq, wav, Name, FilePath, path_eq, Files, Content, names_in,
  newest_first, insert_newest, list_captures,
}
use echo_voice_satellite.Training.Store.{Names, prune_untriaged}

-- How many captures a file adds to the bucket at most
abbrev pub tally : String → Bucket → FilePath → ℕ
tally m b p = elim ((p.model == m && p.bucket == b) && p.part == wav) [ true ↦ 1 | false ↦ 0 ]

pub length-put :
    (m : String) (b : Bucket) (q : FilePath) (c : Content) (fs : Files)
    → length (names_in m b (put q c fs)) ≤ length (names_in m b fs) + tally m b q
unfolding put names_in
length-put m b q c [] = elim (Bool-cases ((q.model == m && q.bucket == b) && q.part == wav)) [
  | inl e ↦ rw (e, tally) (omega arith)
  | inr e ↦ rw (e, tally) (omega arith)
]
length-put m b q c ((p, d) ∷ fs) =
    let rest = length-put m b q c fs in
    elim (Bool-cases (p == q)) [
      | inl same ↦
          rw (same, put)
            (elim (Bool-cases ((p.model == m && p.bucket == b) && p.part == wav)) [
              | inl e ↦ rw e (omega arith)
              | inr e ↦ rw e (omega arith)
            ])
      | inr other ↦
          rw (other, put)
            (elim (Bool-cases ((p.model == m && p.bucket == b) && p.part == wav)) [
              | inl e ↦ rw e (omega (arith, rest))
              | inr e ↦ rw e (omega (arith, rest))
            ])
    ]

length-insert_newest : (n : Name) (ks : List Name) → length (insert_newest n ks) ≡ suc (length ks)
length-insert_newest n [] = refl
length-insert_newest n (k ∷ ks) = elim (Bool-cases (leb k.ts_ms n.ts_ms)) [
  | inl e ↦ rw e refl
  | inr e ↦ rw e (ap suc (length-insert_newest n ks))
]

length-sorted : (ks : List Name) → length (newest_first ks) ≡ length ks
unfolding newest_first
length-sorted [] = refl
length-sorted (k ∷ ks) = length-insert_newest k (newest_first ks) ∙ ap suc (length-sorted ks)

drop-all : (cap : ℕ) (ks : List Name) → length ks ≤ cap → drop cap ks ≡ []
drop-all zero [] h = refl
drop-all zero (k ∷ ks) h = absurd (omega arith)
drop-all (suc cap) [] h = refl
drop-all (suc cap) (k ∷ ks) h = drop-all cap ks (omega arith)

-- Where there are no more captures than the cap, nothing is pruned.
pub prune-room :
    (py : Names) (works : FilePath → Bool) (m : String) (cap : ℕ) (fs : Files)
    → py.is_model m ≡ true
    → length (names_in m untriaged fs) ≤ cap
    → prune_untriaged py works m cap fs ≡ fs
unfolding prune_untriaged list_captures
prune-room py works m cap fs known room =
    let none_left =
      drop-all cap (newest_first (names_in m untriaged fs))
        (omega (arith, length-sorted (names_in m untriaged fs))) in
    rw (known, none_left) refl
