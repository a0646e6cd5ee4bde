-- ===== src/Accounts/Guard.antt =====
-- Who may change what of an account, and when one is set up (controller/em_api.py, controller/em_auth.py).
use echo_voice_satellite.Prelude.{
  ℕ, ◌≤◌, ◌<◌, String, ◌≡◌, refl, sym, ap, subst, ◌∙◌, ◌⊎◌, inl, inr, true, false, none, some, List,
  [], ◌∷◌, ◌==◌, nat_eq, string_eq, nat_beq_iff, eq_iff, length-append, empty_of-length, arith,
  Bool-cases, Option-cases,
}
use echo_voice_satellite.Prelude.Dict.{get}
use echo_voice_satellite.Prelude.Int.{ℤ}
use echo_voice_satellite.Accounts.Store.{
  User, Db, has_id, get_user_by_id, user_count, create_user, create_session,
}
use echo_voice_satellite.Accounts.Rows.{find-append, find-update, length-update}
use echo_voice_satellite.Accounts.Login.{
  Python, Auth, create_first_admin, login, setup_complete, invalid_token, are_invalid,
}
use echo_voice_satellite.Accounts.Access.{Request, Principal, resolve_session}
use echo_voice_satellite.Accounts.Api.{
  Call, patches, passwords, handle, handles, Answer, session, refused, post_setup,
}
use echo_voice_satellite.Accounts.Change.{
  found_number, Change, keeps, adds, grants, rehashes, handle-Change,
}

-- `u'` is `u` with another role, and this is the request that gives it, and its sender.
abbrev pub Promoted : ℕ → Call → Db → User → User → Type 0
Promoted now c db u u' =
    (role : String) × (u' ≡ record u { role = role })
    × (r : Request) × (p : Principal) × (c ≡ patches r role u.id)
    × (resolve_session r now db ≡ some p)
    × (p.role ≡ "admin")

-- `u'` is `u` with another password, and this is the request that sets it, and its sender, who knows the old one.
abbrev pub Rehashed : Python → ℕ → Call → Db → User → User → Type 0
Rehashed py now c db u u' =
    (hash : String) × (u' ≡ record u { password_hash = hash })
    × (r : Request) × (p : Principal) × (current : String) × (next : String) × (c
        ≡ passwords r hash current next)
    × (resolve_session r now db ≡ some p)
    × (p.id ≡ some u.id)
    × (py.verify current u.password_hash ≡ true)

-- What a request leaves of an account, or who changed it.
abbrev pub Guarded : Python → ℕ → Call → Db → User → User → Type 0
Guarded py now c db u u' = (u' ≡ u) ⊎ (Promoted now c db u u' ⊎ Rehashed py now c db u u')

Change-Guarded :
    (py : Python) (now : ℕ) (c : Call) {db db' : Db} (n : ℕ) (u : User)
    → Change py now c db db'
    → get_user_by_id n db ≡ some u
    → (u' : User) × (get_user_by_id n db' ≡ some u') × Guarded py now c db u u'
Change-Guarded py now c {db} n u (keeps (same, next)) e = (u, rw same e, inl refl)
Change-Guarded py now c {db} n u (adds v id locked added next) e =
    (u, rw added (find-append (has_id n) db.users v u e), inl refl)
Change-Guarded py now c {db} n u (grants r p role m asked known admin allowed changed next) e =
    let after = find-update m n (λ w. record w { role = role }) db.users u (λ w. refl) e in
    elim (Bool-cases (n == m)) [
      | inl same ↦
          let own : m ≡ u.id = sym ((nat_beq_iff n m).0 same) ∙ found_number n u db.users e in
          (
            record u { role = role },
            rw (changed, after, same) refl,
            inr (inl (role, refl, r, p, asked ∙ ap (patches r role) own, known, admin)),
          )
      | inr other ↦ (u, rw (changed, after, other) refl, inl refl)
    ]
Change-Guarded py now c {db} n u
      (rehashes r p v hash current next_one asked known own there right changed next) e =
    let after =
      find-update v.id n (λ w. record w { password_hash = hash }) db.users u (λ w. refl) e in
    elim (Bool-cases (n == v.id)) [
      | inl same ↦
          let at : n ≡ v.id = (nat_beq_iff n v.id).0 same in
          let one : v ≡ u = ground arith in
          (
            record u { password_hash = hash },
            rw (changed, after, same) refl,
            inr (
                inr (
                  hash,
                  refl,
                  r,
                  p,
                  current,
                  next_one,
                  asked,
                  known,
                  own ∙ ap (λ w. some w.id) one,
                  subst (λ w. py.verify current w.password_hash ≡ true) one right,
                )),
          )
      | inr other ↦ (u, rw (changed, after, other) refl, inl refl)
    ]

-- Of an account, a request changes nothing but its role, at the request of an administrator for this role, or its
-- password, at the request of its own user with the old password. No account is ever taken away.
pub handle-Guarded :
    (py : Python) (now : ℕ) (c : Call) (a : Auth) (n : ℕ) (u : User)
    → get_user_by_id n a.db ≡ some u
    → (u' : User) × (get_user_by_id n (handle py now c a).0.db ≡ some u')
      × Guarded py now c a.db u u'
handle-Guarded py now c a n u e = Change-Guarded py now c n u (handle-Change py now c a) e

Change-user_count :
    {py : Python} {now : ℕ} {c : Call} {db db' : Db}
    → Change py now c db db'
    → user_count db ≤ user_count db'
Change-user_count (keeps (same, next)) = rw same (omega arith)
Change-user_count {db = db} (adds v id locked added next) =
    rw added (omega (arith, length-append db.users (v ∷ [])))
Change-user_count {db = db} (grants r p role m asked known admin allowed changed next) =
    rw changed (omega (arith, length-update m (λ w. record w { role = role }) db.users))
Change-user_count {db = db}
      (rehashes r p v hash current next_one asked known own there right changed next) =
    rw changed (omega (arith, length-update v.id (λ w. record w { password_hash = hash }) db.users))

handles-user_count :
    (py : Python) (cs : List (ℕ × Call)) (a : Auth)
    → user_count a.db ≤ user_count (handles py cs a).db
unfolding handles
handles-user_count py [] a = omega arith
handles-user_count py ((now, c) ∷ cs) a = omega (
  arith,
  Change-user_count (handle-Change py now c a),
  handles-user_count py cs (handle py now c a).0,
)

-- What a set-up answers when there is a user already.
abbrev pub TooLate : Answer → Type 0
TooLate x = (x ≡ refused setup_complete) ⊎ (x ≡ refused invalid_token)

too_late :
    (py : Python) (hash token given username password : String) (now : ℕ) (b : Auth)
    → 0 < user_count b.db
    → (post_setup py hash token now given username password b).0 ≡ b
      × TooLate (post_setup py hash token now given username password b).1
unfolding post_setup create_first_admin
too_late py hash token given username password now b h = elim (Option-cases b.bootstrap_token) [
  | inl gone ↦ (ground arith, inl (ground arith))
  | inr (expected, q) ↦ elim (Bool-cases (given == expected)) [
    | inl right ↦ (ground arith, inl (ground arith))
    | inr wrong ↦ (ground arith, inr (ground arith))
  ]
]

-- Where there is no user and the program has started, the set-up with the token that it printed, a valid name and
-- password, a hash that they match and a number of days for the sessions makes an administrator, the only account, and logs him in.
pub post_setup_first :
    (py : Python) (a : Auth) (hash token given username password : String) (now : ℕ) (days : ℤ)
    → a.db.session_expiry_days ≡ some days
    → user_count a.db ≡ 0
    → a.bootstrap_token ≡ some given
    → are_invalid py username password ≡ false
    → py.verify password hash ≡ true
    → get token a.db.sessions ≡ none
    → let after = post_setup py hash token now given username password a in
      (after.1 ≡ session a.db.next_id token "admin") × (user_count after.0.db ≡ 1)
unfolding post_setup create_first_admin create_user login create_session
post_setup_first py a hash token given username password now days set h e valid match fresh =
    let empty = empty_of-length a.db.users h in
    (
      ground (arith, eq_iff given given, eq_iff username username),
      ground (arith, eq_iff given given, eq_iff username username),
    )

-- Once there is a user, whatever requests came since, a set-up is refused and changes nothing.
pub post_setup-once :
    (py : Python) (cs : List (ℕ × Call)) (a : Auth) (hash token given username password : String)
    (now : ℕ)
    → 0 < user_count a.db
    → let b = handles py cs a in
      ((post_setup py hash token now given username password b).0 ≡ b)
      × TooLate (post_setup py hash token now given username password b).1
post_setup-once py cs a hash token given username password now h =
    too_late py hash token given username password now (handles py cs a)
      (omega (arith, handles-user_count py cs a))
