-- ===== src/Accounts/Rows.antt =====
-- What the queries of the table of users find and keep (controller/em_db.py).
use echo_voice_satellite.Prelude.{
  ℕ, ◌+◌, ◌≤◌, ◌<◌, ◌≡◌, refl, subst, Bool, true, false, some, List, [], ◌∷◌, ◌++◌, if◌then◌else◌,
  ◌==◌, nat_eq, string_eq, nat_beq_iff, length, All, arith, Bool-cases, inl, inr,
}
use echo_voice_satellite.Accounts.Store.{User, find_user, has_id, count_users, update_user}

-- The numbers of the users ascend from `lo` on, below `hi`.
abbrev pub Ascend : ℕ → ℕ → List User → Type 0
Ascend lo hi [] = lo ≤ hi
Ascend lo hi (u ∷ us) = (lo ≤ u.id) × Ascend (u.id + 1) hi us

pub Ascend-le : (lo hi : ℕ) (us : List User) → Ascend lo hi us → lo ≤ hi
Ascend-le lo hi [] h = h
Ascend-le lo hi (u ∷ us) (h, k) = omega (arith, Ascend-le (u.id + 1) hi us k)

pub Ascend-append :
    (lo hi : ℕ) (us : List User) (v : User)
    → v.id ≡ hi
    → Ascend lo hi us
    → Ascend lo (hi + 1) (us ++ v ∷ [])
Ascend-append lo hi [] v e h = (omega arith, omega arith)
Ascend-append lo hi (u ∷ us) v e (h, k) = (h, Ascend-append (u.id + 1) hi us v e k)

-- An update that leaves the number alone.
pub Ascend-update :
    (lo hi n : ℕ) (change : User → User) (us : List User)
    → ((u : User) → (change u).id ≡ u.id)
    → Ascend lo hi us
    → Ascend lo hi (update_user n change us)
Ascend-update lo hi n change [] same h = h
Ascend-update lo hi n change (u ∷ us) same (h, k) = elim (Bool-cases (u.id == n)) [
  | inl e ↦
      rw e (omega (arith, same u), rw (same u) (Ascend-update (u.id + 1) hi n change us same k))
  | inr e ↦ rw e (h, Ascend-update (u.id + 1) hi n change us same k)
]

-- A number below the rows is not theirs, so an update of it changes none.
pub update_below :
    (lo hi n : ℕ) (change : User → User) (us : List User)
    → Ascend lo hi us
    → n < lo
    → update_user n change us ≡ us
update_below lo hi n change [] h below = refl
update_below lo hi n change (u ∷ us) (h, k) below =
    let other : (u.id == n) ≡ false = ground arith in
    rw (other, update_below (u.id + 1) hi n change us k (omega arith))

-- A change of one row lowers a count by one at most.
pub count-update :
    (lo hi n : ℕ) (change : User → User) (p : User → Bool) (us : List User)
    → Ascend lo hi us
    → count_users p us ≤ count_users p (update_user n change us) + 1
count-update lo hi n change p [] h = omega arith
count-update lo hi n change p (u ∷ us) (h, k) = elim (Bool-cases (u.id == n)) [
  | inl e ↦
      let at : u.id ≡ n = (nat_beq_iff u.id n).0 e in
      rw (e, update_below (u.id + 1) hi n change us k (omega arith)) (ground arith)
  | inr e ↦ rw e (ground (arith, count-update (u.id + 1) hi n change p us k))
]

-- Of a row that does not count, by none.
pub count-update_other :
    (n : ℕ) (change : User → User) (p : User → Bool) (us : List User)
    → ((u : User) → p u ≡ true → p (change u) ≡ true)
    → count_users p us ≤ count_users p (update_user n change us)
count-update_other n change p [] keeps = omega arith
count-update_other n change p (u ∷ us) keeps =
    ground (arith, keeps u, count-update_other n change p us keeps)

pub count-append :
    (p : User → Bool) (us : List User) (v : User) → count_users p us ≤ count_users p (us ++ v ∷ [])
count-append p [] v = omega arith
count-append p (u ∷ us) v = ground (arith, count-append p us v)

pub find-holds :
    (p : User → Bool) (us : List User) (u : User) → find_user p us ≡ some u → p u ≡ true
find-holds p [] u e = cc
find-holds p (v ∷ us) u e = elim (Bool-cases (p v)) [
  | inl t ↦ let q : v ≡ u = ground arith in rw (← q) t
  | inr f ↦ find-holds p us u (rw f at e)
]

pub find-All {κ} :
    (P : User → Type κ) (p : User → Bool) (us : List User) (u : User)
    → All P us
    → find_user p us ≡ some u
    → P u
find-All P p [] u h e = cc
find-All P p (v ∷ us) u (h, k) e = elim (Bool-cases (p v)) [
  | inl t ↦ let q : v ≡ u = ground arith in rw (← q) h
  | inr f ↦ find-All P p us u k (rw f at e)
]

-- What is found stays found when a row is added.
pub find-append :
    (p : User → Bool) (us : List User) (v u : User)
    → find_user p us ≡ some u
    → find_user p (us ++ v ∷ []) ≡ some u
find-append p [] v u e = cc
find-append p (w ∷ us) v u e = ground (arith, find-append p us v u)

pub find_new :
    (lo hi : ℕ) (us : List User) (v : User)
    → Ascend lo hi us
    → v.id ≡ hi
    → find_user (has_id hi) (us ++ v ∷ []) ≡ some v
find_new lo hi [] v h e = ground arith
find_new lo hi (u ∷ us) v (h, k) e =
    let below = Ascend-le (u.id + 1) hi us k in ground (arith, find_new (u.id + 1) hi us v k e)

-- The row of a number after an update.
pub find-update :
    (n m : ℕ) (change : User → User) (us : List User) (u : User)
    → ((v : User) → (change v).id ≡ v.id)
    → find_user (has_id m) us ≡ some u
    → find_user (has_id m) (update_user n change us) ≡ some (if m == n then change u else u)
find-update n m change [] u same e = cc
find-update n m change (v ∷ us) u same e = ground (arith, same v, find-update n m change us u same)

pub update-All {κ} :
    (P : User → Type κ) (n : ℕ) (change : User → User) (us : List User)
    → ((u : User) → u.id ≡ n → P u → P (change u))
    → All P us
    → All P (update_user n change us)
update-All P n change [] keeps h = tt
update-All P n change (u ∷ us) keeps (h, k) = elim (Bool-cases (u.id == n)) [
  | inl e ↦ rw e (keeps u ((nat_beq_iff u.id n).0 e) h, update-All P n change us keeps k)
  | inr e ↦ rw e (h, update-All P n change us keeps k)
]

pub length-update :
    (n : ℕ) (change : User → User) (us : List User) → length (update_user n change us) ≡ length us
length-update n change [] = refl
length-update n change (u ∷ us) = omega (arith, length-update n change us)

-- A change of the row of a number, which no other row has.
pub update_found-All {κ} :
    (P : User → Type κ) (lo hi n : ℕ) (change : User → User) (us : List User) (u : User)
    → Ascend lo hi us
    → find_user (has_id n) us ≡ some u
    → P (change u)
    → All P us
    → All P (update_user n change us)
update_found-All P lo hi n change [] u h e c a = tt
update_found-All P lo hi n change (v ∷ us) u (h, k) e c (p, a) = elim (Bool-cases (v.id == n)) [
  | inl t ↦
      let at : v.id ≡ n = (nat_beq_iff v.id n).0 t in
      let same : u ≡ v = ground arith in
      rw (t, update_below (v.id + 1) hi n change us k (omega arith))
        (subst (λ w. P (change w)) same c, a)
  | inr f ↦ rw f (p, update_found-All P (v.id + 1) hi n change us u k (rw f at e) c a)
]

-- A change of a row that does not count lowers no count.
pub count-update_found :
    (lo hi n : ℕ) (change : User → User) (p : User → Bool) (us : List User) (u : User)
    → Ascend lo hi us
    → find_user (has_id n) us ≡ some u
    → p u ≡ false
    → count_users p us ≤ count_users p (update_user n change us)
count-update_found lo hi n change p [] u h e f = omega arith
count-update_found lo hi n change p (v ∷ us) u (h, k) e f = elim (Bool-cases (v.id == n)) [
  | inl t ↦
      let at : v.id ≡ n = (nat_beq_iff v.id n).0 t in
      let same : u ≡ v = ground arith in
      let out : p v ≡ false = subst (λ w. p w ≡ false) same f in
      rw (t, out, update_below (v.id + 1) hi n change us k (omega arith)) (ground arith)
  | inr o ↦
      let rest = count-update_found (v.id + 1) hi n change p us u k (rw o at e) f in
      rw o (ground (arith, rest))
]

find-ge :
    (lo hi : ℕ) (p : User → Bool) (us : List User) (u : User)
    → Ascend lo hi us
    → find_user p us ≡ some u
    → lo ≤ u.id
find-ge lo hi p [] u h e = cc
find-ge lo hi p (v ∷ us) u (h, k) e = elim (Bool-cases (p v)) [
  | inl t ↦ let same : v ≡ u = ground arith in subst (λ w. lo ≤ w.id) same h
  | inr f ↦ omega (arith, find-ge (v.id + 1) hi p us u k (rw f at e))
]

-- A row that is found by any test is found by its number.
pub find-id :
    (lo hi : ℕ) (p : User → Bool) (us : List User) (u : User)
    → Ascend lo hi us
    → find_user p us ≡ some u
    → find_user (has_id u.id) us ≡ some u
find-id lo hi p [] u h e = cc
find-id lo hi p (v ∷ us) u (h, k) e = elim (Bool-cases (p v)) [
  | inl t ↦ ground arith
  | inr f ↦
      let later = find-ge (v.id + 1) hi p us u k (rw f at e) in
      let other : (v.id == u.id) ≡ false = ground arith in
      rw other (find-id (v.id + 1) hi p us u k (rw f at e))
]
