-- ===== src/Accounts/Linked.antt =====
-- The accounts that the users of Home Assistant get (controller/em_auth.py, controller/em_db.py).
use echo_voice_satellite.Prelude.{
  ℕ, zero, suc, ◌+◌, ◌≤◌, String, ◌≡◌, ◌≢◌, refl, sym, subst, ◌∙◌, ◌⊎◌, inl, inr, true, false, not,
  none, some, List, [], ◌∷◌, ◌==◌, if◌then◌else◌, nat_eq, string_eq, eq_iff, length, All, select,
  any, arith, Bool-cases, Option-cases,
}
use echo_voice_satellite.Prelude.Dict.{get, put, get-put}
use echo_voice_satellite.Prelude.Int.{ℤ}
use echo_voice_satellite.Prelude.Result.{ok}
use echo_voice_satellite.Ingress.{IngressIdentity, role_for}
use echo_voice_satellite.Accounts.Store.{
  User, Db, find_user, has_name, is_linked, is_taken, user_count, ha_admin_count, free_name,
  get_user_by_ha_id, create_ha_user, create_session, ha_user_password_sentinel, insert_user,
  get_user_by_id, expiry,
}
use echo_voice_satellite.Accounts.Rows.{find_new, find-holds, find-id}
use echo_voice_satellite.Accounts.Login.{
  Python, Granted, open_session, provision, login_via_ingress,
}
use echo_voice_satellite.Accounts.Admins.{IsSound}

-- The names that the loop tries on its fuel, and that no two are the same.
abbrev trials : (String → ℕ → String) → ℕ → String → ℕ → String → List String
trials numbered zero username suffix base = []
trials numbered (suc fuel) username suffix base =
    base ∷ trials numbered fuel username (suffix + 1) (numbered username (suffix + 1))

abbrev Distinct : List String → Type 0
Distinct [] = Unit
Distinct (c ∷ cs) = All (λ d. c ≢ d) cs × Distinct cs

abbrev Taken : List User → String → Type 0
Taken us c = any (has_name c) us ≡ true

free_name-none :
    (numbered : String → ℕ → String) (fuel : ℕ) (username : String) (suffix : ℕ) (base : String)
    (db : Db)
    → free_name numbered fuel username suffix base db ≡ none
    → All (Taken db.users) (trials numbered fuel username suffix base)
unfolding free_name
free_name-none numbered zero username suffix base db e = tt
free_name-none numbered (suc fuel) username suffix base db e =
    elim (Bool-cases (is_taken base db)) [
      | inl t ↦ (
        t,
        free_name-none numbered fuel username (suffix + 1) (numbered username (suffix + 1)) db
            (rw t at e),
      )
      | inr f ↦ let wrong : ⊥ = ground arith in elim wrong [ ]
    ]

length-trials :
    (numbered : String → ℕ → String) (fuel : ℕ) (username : String) (suffix : ℕ) (base : String)
    → length (trials numbered fuel username suffix base) ≡ fuel
length-trials numbered zero username suffix base = refl
length-trials numbered (suc fuel) username suffix base =
    omega
      (arith, length-trials numbered fuel username (suffix + 1) (numbered username (suffix + 1)))

others : String → List String → List String
others c cs = select (λ d. not (c == d)) cs

All-others {κ} :
    (P : String → Type κ) (c : String) (cs : List String) → All P cs → All P (others c cs)
unfolding others
All-others P c [] h = tt
All-others P c (d ∷ cs) (h, k) = elim (Bool-cases (c == d)) [
  | inl t ↦ rw t (All-others P c cs k)
  | inr f ↦ rw f (h, All-others P c cs k)
]

Distinct-others : (c : String) (cs : List String) → Distinct cs → Distinct (others c cs)
unfolding others
Distinct-others c [] h = tt
Distinct-others c (d ∷ cs) (h, k) = elim (Bool-cases (c == d)) [
  | inl t ↦ rw t (Distinct-others c cs k)
  | inr f ↦ rw f (All-others (λ x. d ≢ x) c cs h, Distinct-others c cs k)
]

others_all : (c : String) (cs : List String) → All (λ d. c ≢ d) cs → others c cs ≡ cs
unfolding others
others_all c [] h = refl
others_all c (d ∷ cs) (h, k) = ground (arith, eq_iff c d, others_all c cs k)

length-others : (c : String) (cs : List String) → Distinct cs → length cs ≤ length (others c cs) + 1
unfolding others
length-others c [] h = omega arith
length-others c (d ∷ cs) (h, k) = elim (Bool-cases (c == d)) [
  | inl t ↦
      let same : d ≡ c = sym ((eq_iff c d).0 t) in
      rw (t, others_all c cs (subst (λ x. All (λ y. x ≢ y) cs) same h)) (omega arith)
  | inr f ↦ rw f (omega (arith, length-others c cs k))
]

Taken-others :
    (u : User) (us : List User) (cs : List String)
    → All (Taken (u ∷ us)) cs
    → All (Taken us) (others u.username cs)
unfolding others
Taken-others u us [] h = tt
Taken-others u us (c ∷ cs) (h, k) = elim (Bool-cases (u.username == c)) [
  | inl t ↦ rw t (Taken-others u us cs k)
  | inr f ↦ rw f (rw f at h, Taken-others u us cs k)
]

-- Names that are taken and differ are as many as the users at most.
Taken-le :
    (us : List User) (cs : List String) → Distinct cs → All (Taken us) cs → length cs ≤ length us
Taken-le [] [] d h = omega arith
Taken-le [] (c ∷ cs) d (h, k) = cc
Taken-le (u ∷ us) cs d h = omega (
  arith,
  length-others u.username cs d,
  Taken-le us (others u.username cs) (Distinct-others u.username cs d) (Taken-others u us cs h),
)

-- The names that `f"{username}-{suffix}"` makes differ from one another and from the name.
pub record Numbers (numbered : String → ℕ → String) : Type 0 where
  pub other : (s : String) (n : ℕ) → numbered s n ≢ s
  pub distinct : (s : String) (m n : ℕ) → numbered s m ≡ numbered s n → m ≡ n

module _ (numbered : String → ℕ → String) (good : Numbers numbered) where
  differ :
      (fuel : ℕ) (username : String) (m suffix : ℕ)
      → m ≤ suffix
      → All
          (λ d. numbered username m ≢ d)
          (trials numbered fuel username (suffix + 1) (numbered username (suffix + 1)))
  differ zero username m suffix h = tt
  differ (suc fuel) username m suffix h = (
    λ e. let same = good.distinct username m (suffix + 1) e in absurd (omega arith),
    differ fuel username m (suffix + 1) (omega arith),
  )

  differ_base :
      (fuel : ℕ) (username : String) (suffix : ℕ)
      → All
          (λ d. username ≢ d)
          (trials numbered fuel username (suffix + 1) (numbered username (suffix + 1)))
  differ_base zero username suffix = tt
  differ_base (suc fuel) username suffix =
      (λ e. good.other username (suffix + 1) (sym e), differ_base fuel username (suffix + 1))

  numbered-Distinct :
      (fuel : ℕ) (username : String) (suffix : ℕ)
      → Distinct (trials numbered fuel username suffix (numbered username suffix))
  numbered-Distinct zero username suffix = tt
  numbered-Distinct (suc fuel) username suffix = (
    differ fuel username suffix suffix (omega arith),
    numbered-Distinct fuel username (suffix + 1),
  )

  trials-Distinct :
      (fuel : ℕ) (username : String) → Distinct (trials numbered fuel username 1 username)
  trials-Distinct zero username = tt
  trials-Distinct (suc fuel) username =
      (differ_base fuel username 1, numbered-Distinct fuel username 2)

  -- One more try than there are users finds a free name.
  pub free_name-ends :
      (username : String) (db : Db)
      → free_name numbered (user_count db + 1) username 1 username db ≢ none
  free_name-ends username db e =
      let fuel = user_count db + 1 in
      omega (
        arith,
        length-trials numbered fuel username 1 username,
        Taken-le db.users (trials numbered fuel username 1 username) (trials-Distinct fuel username)
            (free_name-none numbered fuel username 1 username db e),
      )

not_linked :
    (ha_id : String) (us : List User)
    → find_user (is_linked ha_id) us ≡ none
    → any (is_linked ha_id) us ≡ false
not_linked ha_id [] e = refl
not_linked ha_id (u ∷ us) e = ground (arith, not_linked ha_id us)

linked : (ha_id : String) (u : User) → is_linked ha_id u ≡ true → u.ha_user_id ≡ some ha_id
linked ha_id u e = elim (Option-cases u.ha_user_id) [
  | inl none_linked ↦ let wrong : ⊥ = ground arith in elim wrong [ ]
  | inr (h, q) ↦ ground (arith, eq_iff h ha_id)
]

-- The account that was there, or a new one with the role that `role_for` gives.
abbrev pub AccountOf : Python → IngressIdentity → Db → User → Type 0
AccountOf py i db u =
    (get_user_by_ha_id i.user_id db ≡ some u)
    ⊎ ((get_user_by_ha_id i.user_id db ≡ none)
        × (u.role ≡ role_for py.texts (ha_admin_count db) db.ingress_default_role))

provision_lem :
    (py : Python) (i : IngressIdentity) (db : Db)
    → Numbers py.numbered
    → IsSound db
    → get_user_by_ha_id i.user_id db ≡ none
    → (db' : Db) × (u : User) × (provision py i db ≡ ok (db', u))
      × (u.ha_user_id ≡ some i.user_id)
      × (u.role ≡ role_for py.texts (ha_admin_count db) db.ingress_default_role)
      × (db'.sessions ≡ db.sessions)
      × (db'.session_expiry_days ≡ db.session_expiry_days)
      × (get_user_by_id u.id db' ≡ some u)
unfolding provision create_ha_user
provision_lem py i db good s nobody =
    elim (Option-cases (free_name py.numbered (user_count db + 1) i.username 1 i.username db)) [
      | inl stuck ↦ absurd (free_name-ends py.numbered good i.username db stuck)
      | inr (base, q) ↦
          let role = role_for py.texts (ha_admin_count db) db.ingress_default_role in
          let v : User = record {
            id = db.next_id;
            username = base;
            password_hash = ha_user_password_sentinel;
            role = role;
            ha_user_id = some i.user_id;
          } in
          let found = find_new 1 db.next_id db.users v s.ascending refl in
          (
            insert_user base ha_user_password_sentinel role (some i.user_id) db,
            v,
            let free = not_linked i.user_id db.users nobody in ground arith,
            refl,
            refl,
            refl,
            refl,
            found,
          )
    ]

-- The tables with a session of the user, from `now` on, under the token
abbrev with_session : String → ℕ → ℤ → User → Db → Db
with_session token now days u db = record db {
  sessions =
      put token (record { user_id = u.id; created_at = now; expires_at = expiry now days })
        db.sessions;
}

abbrev granted_to : String → ℕ → ℤ → User → Db → Granted
granted_to token now days u db = record {
  db = with_session token now days u db;
  user = u;
  token = token;
}

open_session_lem :
    (token : String) (now : ℕ) (days : ℤ) (u : User) (db : Db)
    → db.session_expiry_days ≡ some days
    → get token db.sessions ≡ none
    → open_session token now u db ≡ ok (granted_to token now days u db)
unfolding create_session
open_session_lem token now days u db set fresh = ground arith

-- Who is let in, under the token: the account is in the table under its number, and the token is that of a session of
-- this account, which lasts for `days`; the session of every other token is the one before.
pub record LetIn (token : String) (now : ℕ) (days : ℤ) (db : Db) (g : Granted) : Type 0 where
  pub minted : g.token ≡ token
  pub stored : get_user_by_id g.user.id g.db ≡ some g.user
  pub sessions :
      (t : String)
      → get t g.db.sessions ≡ (
          if token == t
          then some (record { user_id = g.user.id; created_at = now; expires_at = expiry now days })
          else get t db.sessions)

granted-LetIn :
    (token : String) (now : ℕ) (days : ℤ) (u : User) (db db' : Db)
    → db'.sessions ≡ db.sessions
    → get_user_by_id u.id db' ≡ some u
    → LetIn token now days db (granted_to token now days u db')
granted-LetIn token now days u db db' same there = record {
  minted = refl;
  stored = there;
  sessions = λ t.
      get-put token t (record { user_id = u.id; created_at = now; expires_at = expiry now days })
        db'.sessions
      ∙ rw same refl;
}

-- A user whom Home Assistant vouches for is let in, if the token is new, the days of a session are a number and the
-- numbered names differ: with a session of his own account and of no other, for these days, and no other session
-- changes. His account is the one that he had, its role as it was, or a new one with the role that `role_for` gives.
pub login_via_ingress-own :
    (py : Python) (token : String) (now : ℕ) (days : ℤ) (i : IngressIdentity) (db : Db)
    → Numbers py.numbered
    → IsSound db
    → db.session_expiry_days ≡ some days
    → get token db.sessions ≡ none
    → (g : Granted) × ((login_via_ingress py token now i db).1 ≡ ok g)
      × LetIn token now days db g
      × (g.user.ha_user_id ≡ some i.user_id)
      × AccountOf py i db g.user
unfolding login_via_ingress
login_via_ingress-own py token now days i db good s set fresh =
    elim (Option-cases (get_user_by_ha_id i.user_id db)) [
      | inr (u, there) ↦
          let opened = open_session_lem token now days u db set fresh in
          let own = linked i.user_id u (find-holds (is_linked i.user_id) db.users u there) in
          let row = find-id 1 db.next_id (is_linked i.user_id) db.users u s.ascending there in
          (
            granted_to token now days u db,
            rw (there, login_via_ingress) opened,
            granted-LetIn token now days u db db refl row,
            own,
            inl there,
          )
      | inl nobody ↦
          let (db', u, made, own, role, same, lasting, row) = provision_lem py i db good s nobody in
          let opened = open_session_lem token now days u db' (lasting ∙ set) (rw same fresh) in
          (
            granted_to token now days u db',
            rw (nobody, login_via_ingress, made) opened,
            granted-LetIn token now days u db db' same row,
            own,
            inr (nobody, role),
          )
    ]
