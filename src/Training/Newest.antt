-- ===== src/Training/Newest.antt =====
-- That the list of captures is in the order of their times (controller/em_training_captures.py), and what
-- a cut of it keeps.
use echo_voice_satellite.Prelude.{
  ℕ, zero, suc, ◌≤◌, ◌≡◌, subst, sym, inl, inr, true, false, not, List, [], ◌∷◌, ◌==◌, All, arith,
  Bool-cases, take, drop, select, elem, leb,
}
use echo_voice_satellite.Training.Files.{Name, name_eq, name_beq_iff, newest_first, insert_newest}

All-insert {κ} :
    (P : Name → Type κ) (n : Name) (ks : List Name) → P n → All P ks → All P (insert_newest n ks)
All-insert P n [] p h = (p, tt)
All-insert P n (k ∷ ks) p (q, h) = elim (Bool-cases (leb k.ts_ms n.ts_ms)) [
  | inl e ↦ rw e (p, (q, h))
  | inr e ↦ rw e (q, All-insert P n ks p h)
]

-- The latest first
abbrev Descends : List Name → Type 0
Descends [] = Unit
Descends (n ∷ ns) = All (λ k. k.ts_ms ≤ n.ts_ms) ns × Descends ns

All-le : (a b : ℕ) (ks : List Name) → a ≤ b → All (λ k. k.ts_ms ≤ a) ks → All (λ k. k.ts_ms ≤ b) ks
All-le a b [] h l = tt
All-le a b (k ∷ ks) h (q, l) = (omega arith, All-le a b ks h l)

insert-Descends : (n : Name) (ks : List Name) → Descends ks → Descends (insert_newest n ks)
insert-Descends n [] h = (tt, tt)
insert-Descends n (k ∷ ks) (l, h) = elim (Bool-cases (leb k.ts_ms n.ts_ms)) [
  | inl e ↦
      let le : k.ts_ms ≤ n.ts_ms = ground arith in
      rw e ((le, All-le k.ts_ms n.ts_ms ks le l), (l, h))
  | inr e ↦
      let ge : n.ts_ms ≤ k.ts_ms = ground arith in
      rw e (All-insert (λ x. x.ts_ms ≤ k.ts_ms) n ks ge l, insert-Descends n ks h)
]

pub newest_first-Descends : (ns : List Name) → Descends (newest_first ns)
unfolding newest_first
newest_first-Descends [] = tt
newest_first-Descends (n ∷ ns) = insert-Descends n (newest_first ns) (newest_first-Descends ns)

All-elem {κ} : (P : Name → Type κ) (d : Name) (ks : List Name) → All P ks → elem d ks ≡ true → P d
All-elem P d [] h e = cc
All-elem P d (k ∷ ks) (p, h) e = elim (Bool-cases (d == k)) [
  | inl same ↦ subst P (sym ((name_beq_iff d k).0 same)) p
  | inr other ↦ All-elem P d ks h (rw other at e)
]

-- What holds of all of a list holds of what is in it.
pub All-among {κ} :
    (P : Name → Type κ) (ys ks : List Name) → All P ys → All (λ k. elem k ys ≡ true) ks → All P ks
All-among P ys [] h m = tt
All-among P ys (k ∷ ks) h (e, m) = (All-elem P k ys h e, All-among P ys ks h m)

elem-drop : (cap : ℕ) (d : Name) (ys : List Name) → elem d (drop cap ys) ≡ true → elem d ys ≡ true
elem-drop zero d ys e = e
elem-drop (suc cap) d [] e = e
elem-drop (suc cap) d (y ∷ ys) e = let later = elem-drop cap d ys e in ground arith

-- What is cut off is no later than what is kept.
pub drop-le :
    (cap : ℕ) (d : Name) (ys : List Name)
    → Descends ys
    → elem d (drop cap ys) ≡ true
    → All (λ k. d.ts_ms ≤ k.ts_ms) (take cap ys)
drop-le zero d ys h e = tt
drop-le (suc cap) d [] h e = tt
drop-le (suc cap) d (y ∷ ys) (l, h) e =
    (All-elem (λ k. k.ts_ms ≤ y.ts_ms) d ys l (elem-drop cap d ys e), drop-le cap d ys h e)

-- What is not cut off stays.
pub elem-rest :
    (d : Name) (ds ks : List Name)
    → elem d ks ≡ true
    → elem d ds ≡ false
    → elem d (select (λ k. not (elem k ds)) ks) ≡ true
elem-rest d ds [] e f = cc
elem-rest d ds (k ∷ ks) e f = elim (Bool-cases (d == k)) [
  | inl same ↦
      let at : d ≡ k = (name_beq_iff d k).0 same in
      let out : elem k ds ≡ false = subst (λ x. elem x ds ≡ false) at f in
      rw out (rw same (ground arith))
  | inr other ↦ elim (Bool-cases (elem k ds)) [
    | inl cut ↦ rw cut (elem-rest d ds ks (rw other at e) f)
    | inr kept ↦ rw kept (ground (arith, elem-rest d ds ks (rw other at e) f))
  ]
]
