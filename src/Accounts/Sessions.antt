-- ===== src/Accounts/Sessions.antt =====
-- What a request does to the table of sessions (controller/em_api.py, controller/em_auth.py).
use echo_voice_satellite.Prelude.{
  ℕ, ◌<◌, String, ◌≡◌, refl, subst, ◌∙◌, inl, inr, Option, none, some, nat_eq, string_eq, ltb, All,
  arith, Bool-cases, Option-cases,
}
use echo_voice_satellite.Prelude.Dict.{Dict, get, put}
use echo_voice_satellite.Prelude.Int.{ℤ}
use echo_voice_satellite.Prelude.Result.{ok, Result-cases}
use echo_voice_satellite.Ingress.{IngressIdentity}
use echo_voice_satellite.Accounts.Store.{
  User, Session, Db, get_user_by_id, get_user_by_username, get_user_by_ha_id, create_session,
  get_session, prune_sessions, create_user, expiry,
}
use echo_voice_satellite.Accounts.Login.{
  Python, Auth, Granted, open_session, login, provision, login_via_ingress, create_first_admin,
  maybe_generate_bootstrap_token,
}
use echo_voice_satellite.Accounts.Access.{
  Request, Principal, extract_token, resolve_session, resolve_api_key,
}
use echo_voice_satellite.Accounts.Api.{
  Answer, session, post_setup, post_login, post_ingress_login, post_logout, patch_user,
  change_password, api_key_generate, api_key_rotate, delete_api_key, Call, starts, setups, logins,
  ingress_logins, logouts, patches, passwords, generates, rotates, revokes, configures, prunes,
  handle, patch_system_config,
}
use echo_voice_satellite.Accounts.Tokens.{remove-All, unexpired-All}
use echo_voice_satellite.Accounts.Change.{provision-adds, found_number}

abbrev pub IsLogin : ℕ → String → Answer → Type 0
IsLogin n token (session m t role) = (m ≡ n) × (t ≡ token)
IsLogin n token _ = ⊥

-- The token that is made for the session that a request may open
abbrev pub mints : Call → Option String
mints (setups hash token given username password) = some token
mints (logins token username password) = some token
mints (ingress_logins token identity) = some token
mints _ = none

-- The days that were set, from then on
abbrev pub Lasts : Option ℤ → ℕ → ℕ → Type 0
Lasts days now expires = (d : ℤ) × (days ≡ some d) × (expires ≡ expiry now d)

-- One handler: the rows before, and the row of a login that it answers.
pub data Sessions (c : Call) (days : Option ℤ) (now : ℕ) (x : Answer) (m : Dict String Session)
    : Dict String Session → Type 1 where
  drops :
      {m' : Dict String Session}
      → ((P : String × Session → Type 0) → All P m → All P m')
      → Sessions c days now x m m'
  opens :
      {m' : Dict String Session} (token : String) (s : Session)
      → mints c ≡ some token
      → m' ≡ put token s m
      → IsLogin s.user_id token x
      → Lasts days now s.expires_at
      → Sessions c days now x m m'

same_rows :
    {c : Call} {days : Option ℤ} {now : ℕ} {x : Answer} {m m' : Dict String Session}
    → m' ≡ m
    → Sessions c days now x m m'
same_rows e = drops (λ P h. rw e h)

-- `open_session`, where the tables before have the rows `m`
opened :
    (c : Call) (token : String) (now : ℕ) (u : User) (db : Db) (g : Granted)
    (m : Dict String Session)
    → mints c ≡ some token
    → open_session token now u db ≡ ok g
    → db.sessions ≡ m
    → Sessions c db.session_expiry_days now (session g.user.id g.token g.user.role) m g.db.sessions
unfolding create_session
opened c token now u db g m minted e same = elim (Option-cases db.session_expiry_days) [
  | inl unset ↦ let wrong : ⊥ = ground arith in elim wrong [ ]
  | inr (d, set) ↦ elim (Option-cases (get token db.sessions)) [
    | inr (s, there) ↦ let wrong : ⊥ = ground arith in elim wrong [ ]
    | inl fresh ↦
        opens token (record { user_id = u.id; created_at = now; expires_at = expiry now d }) minted
          (ground arith) (ground arith) (d, set, refl)
  ]
]

-- The tables and the user of a login that succeeded.
abbrev From : String → ℕ → Db → Granted → Type 0
From token now db g =
    (u : User) × (d : Db) × (open_session token now u d ≡ ok g)
    × (d.sessions ≡ db.sessions)
    × (d.session_expiry_days ≡ db.session_expiry_days)

From-Sessions :
    (c : Call) (token : String) (now : ℕ) (db : Db) (g : Granted)
    → mints c ≡ some token
    → From token now db g
    → Sessions c db.session_expiry_days now
        (session g.user.id g.token g.user.role)
        db.sessions
        g.db.sessions
From-Sessions c token now db g minted (u, d, e, rows, days) =
    subst (λ k. Sessions c k now (session g.user.id g.token g.user.role) db.sessions g.db.sessions)
      days (opened c token now u d g db.sessions minted e rows)

module _ (py : Python) (now : ℕ) where
  login-From :
      (token username password : String) (db : Db) (g : Granted)
      → login py token now username password db ≡ ok g
      → From token now db g
  unfolding login
  login-From token username password db g e =
      elim (Option-cases (get_user_by_username username db)) [
        | inl nobody ↦ let wrong : ⊥ = ground arith in elim wrong [ ]
        | inr (u, there) ↦ elim (Bool-cases (py.verify password u.password_hash)) [
          | inl right ↦ (u, db, ground arith, refl, refl)
          | inr no_match ↦ let wrong : ⊥ = ground arith in elim wrong [ ]
        ]
      ]

  ingress-From :
      (token : String) (i : IngressIdentity) (db : Db) (g : Granted)
      → (login_via_ingress py token now i db).1 ≡ ok g
      → From token now db g
  unfolding login_via_ingress
  ingress-From token i db g e = elim (Option-cases (get_user_by_ha_id i.user_id db)) [
    | inr (u, there) ↦ (u, db, ground arith, refl, refl)
    | inl nobody ↦ elim (Result-cases (provision py i db)) [
      | inl (x, r) ↦ let wrong : ⊥ = ground arith in elim wrong [ ]
      | inr ((db', u), r) ↦
          let (v, id, whose, hash, role, after, found) = provision-adds py now i db db' u r in
          (u, db', ground arith, ground arith, ground arith)
    ]
  ]

  post_login-Sessions :
      (token username password : String) (a : Auth)
      → let r = post_login py token now username password a in
        Sessions
          (logins token username password)
          a.db.session_expiry_days
          now
          r.1
          a.db.sessions
          r.0.db.sessions
  unfolding post_login
  post_login-Sessions token username password a =
      elim (Result-cases (login py token now username password a.db)) [
        | inl (x, e) ↦ rw (e, post_login) (same_rows refl)
        | inr (g, e) ↦
            rw (e, post_login)
              (From-Sessions _ token now a.db g refl (login-From token username password a.db g e))
      ]

  -- A login through Home Assistant leaves the sessions to `open_session`.
  ingress-rows :
      (token : String) (i : IngressIdentity) (db : Db)
      → (login_via_ingress py token now i db).0.sessions ≡ db.sessions
  unfolding login_via_ingress
  ingress-rows token i db = elim (Option-cases (get_user_by_ha_id i.user_id db)) [
    | inr (u, there) ↦ ground arith
    | inl nobody ↦ elim (Result-cases (provision py i db)) [
      | inl (x, r) ↦ ground arith
      | inr ((db', u), r) ↦
          let (v, id, whose, hash, role, after, found) = provision-adds py now i db db' u r in
          ground arith
    ]
  ]

  ingress-Sessions :
      (token : String) (i : Option IngressIdentity) (a : Auth)
      → let r = post_ingress_login py token now i a in
        Sessions
          (ingress_logins token i)
          a.db.session_expiry_days
          now
          r.1
          a.db.sessions
          r.0.db.sessions
  unfolding post_ingress_login
  ingress-Sessions token none a = same_rows refl
  ingress-Sessions token (some i) a =
      elim (Result-cases (login_via_ingress py token now i a.db).1) [
        | inl (x, e) ↦ rw (e, post_ingress_login) (same_rows (ingress-rows token i a.db))
        | inr (g, e) ↦
            rw (e, post_ingress_login)
              (From-Sessions _ token now a.db g refl (ingress-From token i a.db g e))
      ]

  made_first :
      (hash given username password : String) (a b : Auth)
      → create_first_admin py hash given username password a ≡ ok b
      → (b.db.sessions ≡ a.db.sessions) × (b.db.session_expiry_days ≡ a.db.session_expiry_days)
  unfolding create_first_admin create_user
  made_first hash given username password a b e = ground arith

  setup-Sessions :
      (hash token given username password : String) (a : Auth)
      → let r = post_setup py hash token now given username password a in
        Sessions
          (setups hash token given username password)
          a.db.session_expiry_days
          now
          r.1
          a.db.sessions
          r.0.db.sessions
  unfolding post_setup
  setup-Sessions hash token given username password a =
      elim (Result-cases (create_first_admin py hash given username password a)) [
        | inl (x, e) ↦ rw (e, post_setup) (same_rows refl)
        | inr (b, e) ↦
            let (rows, days) = made_first hash given username password a b e in
            elim (Result-cases (login py token now username password b.db)) [
              | inl (x, f) ↦ rw (e, post_setup, f) (same_rows rows)
              | inr (g, f) ↦
                  let (u, d, opening, before, lasting) =
                    login-From token username password b.db g f in
                  rw (e, post_setup, f)
                    (From-Sessions _ token now a.db g refl
                      (u, d, opening, before ∙ rows, lasting ∙ days))
            ]
      ]

  pub handle-Sessions :
      (c : Call) (a : Auth)
      → let r = handle py now c a in
        Sessions c a.db.session_expiry_days now r.1 a.db.sessions r.0.db.sessions
  unfolding handle maybe_generate_bootstrap_token prune_sessions api_key_generate api_key_rotate
      delete_api_key post_logout patch_user change_password patch_system_config
  handle-Sessions (starts token) a = same_rows refl
  handle-Sessions (setups hash token given username password) a =
      setup-Sessions hash token given username password a
  handle-Sessions (logins token username password) a = post_login-Sessions token username password a
  handle-Sessions (ingress_logins token identity) a = ingress-Sessions token identity a
  handle-Sessions (logouts r) a = elim (Option-cases (resolve_session r now a.db)) [
    | inl nobody ↦ same_rows (ground arith)
    | inr (p, known) ↦ drops (λ P h. rw known (remove-All P p.token a.db.sessions h))
  ]
  handle-Sessions (patches r role n) a = same_rows (ground arith)
  handle-Sessions (passwords r hash current next) a = same_rows (ground arith)
  handle-Sessions (generates r key) a = same_rows (ground arith)
  handle-Sessions (rotates r key) a = same_rows (ground arith)
  handle-Sessions (revokes r) a = same_rows (ground arith)
  handle-Sessions (configures r days) a = same_rows (ground arith)
  handle-Sessions prunes a = drops (λ P h. unexpired-All P now a.db.sessions h)

-- The key of the integration makes no user.
by_key : (r : Request) (db : Db) (p : Principal) → resolve_api_key r db ≡ some p → p.id ≡ none
unfolding resolve_api_key
by_key r db p e = elim (Option-cases db.ha_api_key) [
  | inl no_key ↦ let wrong : ⊥ = ground arith in elim wrong [ ]
  | inr (k, q) ↦ ground arith
]

-- A principal that is a user was given the session's token, and the session has not expired.
pub resolve-session :
    (r : Request) (now n : ℕ) (p : Principal) (db : Db)
    → resolve_session r now db ≡ some p
    → p.id ≡ some n
    → (s : Session) × (get p.token db.sessions ≡ some s) × (s.user_id ≡ n) × (now < s.expires_at)
unfolding resolve_session resolve_api_key get_session
resolve-session r now n p db e whose = elim (Option-cases (extract_token r)) [
  | inl no_token ↦ let wrong : ⊥ = ground (arith, by_key r db p) in elim wrong [ ]
  | inr (token, given) ↦ elim (Option-cases (get token db.sessions)) [
    | inl unknown ↦ let wrong : ⊥ = ground (arith, by_key r db p) in elim wrong [ ]
    | inr (s, there) ↦ elim (Bool-cases (ltb now s.expires_at)) [
      | inr late ↦ let wrong : ⊥ = ground (arith, by_key r db p) in elim wrong [ ]
      | inl valid ↦ elim (Option-cases (get_user_by_id s.user_id db)) [
        | inl no_user ↦ let wrong : ⊥ = ground arith in elim wrong [ ]
        | inr (u, row) ↦
            let own = found_number s.user_id u db.users row in
            let with_token : token ≡ p.token = ground arith in
            (
              s,
              subst (λ t. get t db.sessions ≡ some s) with_token there,
              ground arith,
              ground arith,
            )
      ]
    ]
  ]
]
