-- ===== src/Accounts/Login.antt =====
-- The logins, and the set-up of the first account (controller/em_auth.py). A token that `secrets` makes and a hash
-- that bcrypt makes are arguments. A key or a token of a request that is not ASCII, for which `compare_digest`
-- raises, is one that does not match.
use echo_voice_satellite.Prelude.{
  ℕ, String, Bool, not, ◌||◌, Option, none, some, if◌then◌else◌, ◌==◌, nat_eq, string_eq, ltb,
}
use echo_voice_satellite.Prelude.Result.{Result, ok, err, ◌>>=◌, ◌>>◌, raise_if}
use echo_voice_satellite.Ingress.{Texts, IngressIdentity, role_for}
use echo_voice_satellite.Accounts.Store.{
  User, Db, get_user_by_username, get_user_by_id, get_user_by_ha_id, user_count, ha_admin_count,
  create_user, create_ha_user, create_session, IntegrityError,
}

-- `verify_password` (false for a hash that is malformed), `len` and `f"{username}-{suffix}"`, beside `Texts`
pub record Python : Type 0 where
  pub texts : Texts
  pub verify : String → String → Bool
  pub len : String → ℕ
  pub numbered : String → ℕ → String

-- Why a request is refused; the last is an exception that nothing handles.
pub data Refusal : Type 0 where
  not_authenticated forbidden bad_request user_not_found last_admin : Refusal
  invalid_credentials setup_complete invalid_token invalid_input api_key_exists : Refusal
  not_handled : Refusal

abbrev pub checked {ℓ} : {A : Type ℓ} → Result IntegrityError A → Result Refusal A
checked (ok a) = ok a
checked (err e) = err not_handled

-- The tables after a login, the account, the token and the role.
pub record Granted : Type 0 where
  pub db : Db
  pub user : User
  pub token : String

abbrev found {ℓ} : {A : Type ℓ} → Option A → Result Refusal A
found none = err not_handled
found (some a) = ok a

abbrev pub open_session : String → ℕ → User → Db → Result Refusal Granted
open_session token now u db = do
  days ← found db.session_expiry_days
  db' ← checked (create_session token u.id days now db)
  ok (record { db = db'; user = u; token = token })

-- The check of the password, of the user if there is one
abbrev with_password : Python → String → Option User → Result Refusal User
with_password py password none = err invalid_credentials
with_password py password (some u) =
    if py.verify password u.password_hash then ok u else err invalid_credentials

unfoldable pub login : Python → String → ℕ → String → String → Db → Result Refusal Granted
login py token now username password db = do
  u ← with_password py password (get_user_by_username username db)
  open_session token now u db

-- The account of an identity that has none yet
unfoldable pub provision : Python → IngressIdentity → Db → Result Refusal (Db × User)
provision py identity db = do
  let role = role_for py.texts (ha_admin_count db) db.ingress_default_role
  made ← found (create_ha_user py.numbered identity.user_id identity.username role db)
  db' ← checked made
  u ← found (get_user_by_id db.next_id db')
  ok (db', u)

-- An account that is made stays, also if the session after it cannot be opened.
abbrev with_account : String → ℕ → Db → Result Refusal (Db × User) → Db × Result Refusal Granted
with_account token now db (err e) = (db, err e)
with_account token now db (ok (db', u)) = (db', open_session token now u db')

unfoldable pub login_via_ingress :
    Python → String → ℕ → IngressIdentity → Db → Db × Result Refusal Granted
login_via_ingress py token now identity db = elim (get_user_by_ha_id identity.user_id db) [
  | some u ↦ with_account token now db (ok (db, u))
  | none ↦ with_account token now db (provision py identity db)
]

-- `_validate_credentials`
abbrev pub are_invalid : Python → String → String → Bool
are_invalid py username password =
    (username == "" || ltb (py.len (py.texts.strip username)) 2)
    || (ltb 64 (py.len username) || (password == "" || ltb (py.len password) 8))

-- The module's `_bootstrap_token`, and the tables.
pub record Auth : Type 0 where
  pub db : Db
  pub bootstrap_token : Option String

unfoldable pub maybe_generate_bootstrap_token : String → Auth → Auth
maybe_generate_bootstrap_token token a = record a {
  bootstrap_token = if ltb 0 (user_count a.db) then none else some token;
}

unfoldable pub create_first_admin :
    Python → String → String → String → String → Auth → Result Refusal Auth
create_first_admin py hash given username password a = elim a.bootstrap_token [
  | none ↦ err setup_complete
  | some expected ↦ do
    raise_if (not (given == expected)) invalid_token
    raise_if (ltb 0 (user_count a.db)) setup_complete
    raise_if (are_invalid py username password) invalid_input
    db ← checked (create_user username hash "admin" a.db)
    ok (record { db = db; bootstrap_token = none })
]
