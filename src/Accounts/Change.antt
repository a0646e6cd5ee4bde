-- ===== src/Accounts/Change.antt =====
-- What a request may do to the table of users (controller/em_api.py over controller/em_db.py).
use echo_voice_satellite.Prelude.{
  ℕ, ◌+◌, String, ◌≡◌, refl, sym, ap, subst, ◌∙◌, ◌⊎◌, inl, inr, true, Option, none, some, List, [],
  ◌∷◌, ◌++◌, nat_eq, string_eq, nat_beq_iff, eq_iff, ltb, arith, Bool-cases, Option-cases,
}
use echo_voice_satellite.Prelude.Result.{ok, Result-cases}
use echo_voice_satellite.Ingress.{IngressIdentity, role_for}
use echo_voice_satellite.Accounts.Store.{
  User, Db, find_user, has_id, get_user_by_id, get_user_by_ha_id, update_user, user_count,
  ha_admin_count, create_user, free_name, create_ha_user, create_session, insert_user,
  ha_user_password_sentinel, prune_sessions,
}
use echo_voice_satellite.Accounts.Rows.{find-holds}
use echo_voice_satellite.Accounts.Login.{
  Python, login, provision, login_via_ingress, Auth, maybe_generate_bootstrap_token,
  create_first_admin,
}
use echo_voice_satellite.Accounts.Access.{Request, Principal, resolve_session, require_admin}
use echo_voice_satellite.Accounts.Api.{
  post_setup, post_login, post_ingress_login, post_logout, patch_check, patch_user, change_password,
  api_key_generate, api_key_rotate, delete_api_key, Call, starts, setups, logins, ingress_logins,
  logouts, patches, passwords, generates, rotates, revokes, configures, prunes, handle,
  patch_system_config,
}

-- An account of Home Assistant has the hash that no password matches.
abbrev pub Locked : User → Type 0
Locked u = (u.ha_user_id ≡ none) ⊎ (u.password_hash ≡ ha_user_password_sentinel)

abbrev pub SameUsers : Db → Db → Type 0
SameUsers db db' = (db'.users ≡ db.users) × (db'.next_id ≡ db.next_id)

-- Nothing; a new account at the end; a role, at the request of an administrator and as far as `patch_check` lets it;
-- or a password, at the request of its user, who knows the old one.
pub data Change (py : Python) (now : ℕ) (c : Call) (db : Db) : Db → Type 0 where
  keeps : {db' : Db} → SameUsers db db' → Change py now c db db'
  adds :
      {db' : Db} (v : User)
      → v.id ≡ db.next_id
      → Locked v
      → db'.users ≡ db.users ++ v ∷ []
      → db'.next_id ≡ db.next_id + 1
      → Change py now c db db'
  grants :
      {db' : Db} (r : Request) (p : Principal) (role : String) (n : ℕ)
      → c ≡ patches r role n
      → resolve_session r now db ≡ some p
      → p.role ≡ "admin"
      → patch_check role n db ≡ ok true
      → db'.users ≡ update_user n (λ u. record u { role = role }) db.users
      → db'.next_id ≡ db.next_id
      → Change py now c db db'
  rehashes :
      {db' : Db} (r : Request) (p : Principal) (u : User) (hash current next : String)
      → c ≡ passwords r hash current next
      → resolve_session r now db ≡ some p
      → p.id ≡ some u.id
      → get_user_by_id u.id db ≡ some u
      → py.verify current u.password_hash ≡ true
      → db'.users ≡ update_user u.id (λ v. record v { password_hash = hash }) db.users
      → db'.next_id ≡ db.next_id
      → Change py now c db db'

pub found_number : (n : ℕ) (u : User) (us : List User) → find_user (has_id n) us ≡ some u → n ≡ u.id
found_number n u us e = sym ((nat_beq_iff u.id n).0 (find-holds (has_id n) us u e))

found_again :
    (n : ℕ) (u : User) (us : List User)
    → find_user (has_id n) us ≡ some u
    → find_user (has_id u.id) us ≡ some u
found_again n u us e = subst (λ k. find_user (has_id k) us ≡ some u) (found_number n u us e) e

admitted :
    (r : Request) (now : ℕ) (p : Principal) (db : Db)
    → require_admin (resolve_session r now db) ≡ ok p
    → (resolve_session r now db ≡ some p) × (p.role ≡ "admin")
admitted r now p db e = elim (Option-cases (resolve_session r now db)) [
  | inl nobody ↦ let wrong : ⊥ = ground arith in elim wrong [ ]
  | inr (q, known) ↦ ground (arith, eq_iff q.role "admin")
]

module _ (py : Python) (now : ℕ) where
  login-SameUsers :
      (token username password : String) (a : Auth)
      → SameUsers a.db (post_login py token now username password a).0.db
  unfolding post_login login create_session
  login-SameUsers token username password a = ground arith

  setup-Change :
      (hash token given username password : String) (a : Auth)
      → Change py now
          (setups hash token given username password)
          a.db
          (post_setup py hash token now given username password a).0.db
  unfolding post_setup create_first_admin create_user login create_session
  setup-Change hash token given username password a =
      elim (Result-cases (create_first_admin py hash given username password a)) [
        | inl (e, q) ↦ rw q (keeps (refl, refl))
        | inr (b, q) ↦
            let v : User = record {
              id = a.db.next_id;
              username = username;
              password_hash = hash;
              role = "admin";
              ha_user_id = none;
            } in
            let made : b.db ≡ insert_user username hash "admin" none a.db = ground arith in
            rw q (adds v refl (inl refl) (ground arith) (ground arith))
      ]

  -- A new account of Home Assistant, if one is made.
  pub provision-adds :
      (i : IngressIdentity) (db db' : Db) (u : User)
      → provision py i db ≡ ok (db', u)
      → (v : User) × (v.id ≡ db.next_id)
        × (v.ha_user_id ≡ some i.user_id)
        × (v.password_hash ≡ ha_user_password_sentinel)
        × (v.role ≡ role_for py.texts (ha_admin_count db) db.ingress_default_role)
        × (db' ≡ record db { users = db.users ++ v ∷ []; next_id = db.next_id + 1 })
        × (get_user_by_id db.next_id db' ≡ some u)
  unfolding provision create_ha_user
  provision-adds i db db' u e =
      elim (Option-cases (free_name py.numbered (user_count db + 1) i.username 1 i.username db)) [
        | inl q ↦ let wrong : ⊥ = ground arith in elim wrong [ ]
        | inr (base, q) ↦ (
          record {
            id = db.next_id;
            username = base;
            password_hash = ha_user_password_sentinel;
            role = role_for py.texts (ha_admin_count db) db.ingress_default_role;
            ha_user_id = some i.user_id;
          },
          refl,
          refl,
          refl,
          refl,
          ground arith,
          ground arith,
        )
      ]

  ingress-Change :
      (token : String) (i : Option IngressIdentity) (a : Auth)
      → Change py now (ingress_logins token i) a.db (post_ingress_login py token now i a).0.db
  unfolding post_ingress_login login_via_ingress create_session
  ingress-Change token none a = keeps (refl, refl)
  ingress-Change token (some i) a = elim (Option-cases (get_user_by_ha_id i.user_id a.db)) [
    | inr (u, q) ↦ keeps (ground arith, ground arith)
    | inl q ↦ elim (Result-cases (provision py i a.db)) [
      | inl (e, r) ↦ keeps (ground arith, ground arith)
      | inr ((db', u), r) ↦
          let (v, id, linked, hash, role, after, found) = provision-adds i a.db db' u r in
          adds v id (inr hash) (ground arith) (ground arith)
    ]
  ]

  patch-Change :
      (r : Request) (role : String) (n : ℕ) (a : Auth)
      → Change py now (patches r role n) a.db (patch_user r now role n a).0.db
  unfolding patch_user
  patch-Change r role n a = elim (Result-cases (require_admin (resolve_session r now a.db))) [
    | inl (e, q) ↦ keeps (ground arith, ground arith)
    | inr (p, q) ↦ elim (Result-cases (patch_check role n a.db)) [
      | inl (e, k) ↦ keeps (ground arith, ground arith)
      | inr (b, k) ↦ elim (Bool-cases b) [
        | inl t ↦
            let (known, admin) = admitted r now p a.db q in
            grants r p role n refl known admin (ground arith) (ground arith) (ground arith)
        | inr f ↦ keeps (ground arith, ground arith)
      ]
    ]
  ]

  password-Change :
      (r : Request) (hash current next : String) (a : Auth)
      → Change py now
          (passwords r hash current next)
          a.db
          (change_password py r now hash current next a).0.db
  unfolding change_password
  password-Change r hash current next a = elim (Option-cases (resolve_session r now a.db)) [
    | inl q ↦ keeps (ground arith, ground arith)
    | inr (p, q) ↦ elim (Option-cases p.id) [
      | inl k ↦ keeps (ground arith, ground arith)
      | inr (n, k) ↦ elim (Option-cases (get_user_by_id n a.db)) [
        | inl none_found ↦ keeps (ground arith, ground arith)
        | inr (u, f) ↦ elim (Bool-cases (py.verify current u.password_hash)) [
          | inr wrong ↦ keeps (ground arith, ground arith)
          | inl right ↦ elim (Bool-cases (ltb (py.len next) 8)) [
            | inl short ↦ keeps (ground arith, ground arith)
            | inr long ↦
                let own : p.id ≡ some u.id = k ∙ ap some (found_number n u a.db.users f) in
                rehashes r p u hash current next refl q own (found_again n u a.db.users f) right
                  (ground arith) (ground arith)
          ]
        ]
      ]
    ]
  ]

  -- Each request changes the table in one of these ways.
  pub handle-Change : (c : Call) (a : Auth) → Change py now c a.db (handle py now c a).0.db
  unfolding handle maybe_generate_bootstrap_token prune_sessions api_key_generate api_key_rotate
      delete_api_key post_logout patch_system_config
  handle-Change (starts token) a = keeps (refl, refl)
  handle-Change (setups hash token given username password) a =
      setup-Change hash token given username password a
  handle-Change (logins token username password) a =
      keeps (login-SameUsers token username password a)
  handle-Change (ingress_logins token identity) a = ingress-Change token identity a
  handle-Change (logouts r) a = keeps (ground arith)
  handle-Change (patches r role n) a = patch-Change r role n a
  handle-Change (passwords r hash current next) a = password-Change r hash current next a
  handle-Change (generates r key) a = keeps (ground arith)
  handle-Change (rotates r key) a = keeps (ground arith)
  handle-Change (revokes r) a = keeps (ground arith)
  handle-Change (configures r days) a = keeps (ground arith)
  handle-Change prunes a = keeps (refl, refl)
