-- ===== src/Accounts/Api.antt =====
-- The requests that change accounts, sessions and the key of the integration (controller/em_api.py), each handled
-- as one step; what `_patch_user` reads and writes is given apart, since another request may come in between.
use echo_voice_satellite.Prelude.{
  ℕ, String, Bool, true, false, not, ◌&&◌, Option, none, some, List, [], ◌∷◌, if◌then◌else◌, ◌==◌,
  nat_eq, string_eq, ltb, leb,
}
use echo_voice_satellite.Prelude.Int.{ℤ}
use echo_voice_satellite.Prelude.Result.{Result, ok, err, ◌>>=◌, ◌>>◌, raise_if}
use echo_voice_satellite.Ingress.{IngressIdentity, is_role}
use echo_voice_satellite.Accounts.Store.{
  User, Db, get_user_by_id, admin_count, set_user_role, update_user_password, delete_session,
  prune_sessions,
}
use echo_voice_satellite.Accounts.Login.{
  Python, Refusal, bad_request, user_not_found, last_admin, invalid_credentials, invalid_input,
  api_key_exists, not_authenticated, Granted, login, login_via_ingress, Auth,
  maybe_generate_bootstrap_token, create_first_admin,
}
use echo_voice_satellite.Accounts.Access.{
  Request, Principal, resolve_session, require_auth, require_admin,
}

pub data Answer : Type 0 where
  refused : Refusal → Answer
  session : ℕ → String → String → Answer
  changed : Bool → Answer
  new_key : String → Answer
  done : Answer

abbrev login_answer : Granted → Answer
login_answer g = session g.user.id g.token g.user.role

-- The state `a` is left when a handler raises or refuses.
abbrev answered {ℓ} : {A : Type ℓ} → Auth → Result Refusal A → (A → Auth × Answer) → Auth × Answer
answered a (err e) f = (a, refused e)
answered a (ok x) f = f x

abbrev logged_in : Auth → Result Refusal Granted → Auth × Answer
logged_in a r = answered a r (λ g. (record a { db = g.db }, login_answer g))

-- `_post_setup`: the account stays if the login after it fails.
unfoldable pub post_setup :
    Python → String → String → ℕ → String → String → String → Auth → Auth × Answer
post_setup py hash token now given username password a =
    answered a (create_first_admin py hash given username password a)
      (λ a'. logged_in a' (login py token now username password a'.db))

unfoldable pub post_login : Python → String → ℕ → String → String → Auth → Auth × Answer
post_login py token now username password a =
    logged_in a (login py token now username password a.db)

-- `_post_ingress_login`, of what `decide` says of the request
unfoldable pub post_ingress_login :
    Python → String → ℕ → Option IngressIdentity → Auth → Auth × Answer
post_ingress_login py token now none a = (a, refused not_authenticated)
post_ingress_login py token now (some i) a =
    let r = login_via_ingress py token now i a.db in logged_in (record a { db = r.0 }) r.1

abbrev forget : Option Principal → Db → Db
forget none db = db
forget (some p) db = delete_session p.token db

unfoldable pub post_logout : Request → ℕ → Auth → Auth × Answer
post_logout r now a = (record a { db = forget (resolve_session r now a.db) a.db }, done)

-- What `_patch_user` reads before it writes: whether there is something to write.
abbrev allowed : String → Db → Option User → Result Refusal Bool
allowed role db none = err user_not_found
allowed role db (some u) =
    if u.role == role
    then ok false
    else if u.role == "admin" && leb (admin_count db) 1
    then err last_admin
    else ok true

unfoldable pub patch_check : String → ℕ → Db → Result Refusal Bool
patch_check role n db =
    raise_if (not (is_role role)) bad_request >> allowed role db (get_user_by_id n db)

abbrev patched : String → ℕ → Auth → Bool → Auth × Answer
patched role n a false = (a, changed false)
patched role n a true = (record a { db = set_user_role n role a.db }, changed true)

unfoldable pub patch_user : Request → ℕ → String → ℕ → Auth → Auth × Answer
unfolding patch_check
patch_user r now role n a =
    answered a (do p ← require_admin (resolve_session r now a.db); patch_check role n a.db)
      (patched role n a)

abbrev account_of : Db → Option ℕ → Result Refusal User
account_of db none = err user_not_found
account_of db (some n) = elim (get_user_by_id n db) [ none ↦ err user_not_found | some u ↦ ok u ]

unfoldable pub change_password :
    Python → Request → ℕ → String → String → String → Auth → Auth × Answer
change_password py r now hash current next a =
    answered a
      (do
        p ← require_auth (resolve_session r now a.db)
        raise_if (ltb (py.len next) 8) invalid_input
        u ← account_of a.db p.id
        raise_if (not (py.verify current u.password_hash)) invalid_credentials
        ok u.id)
      (λ n. (record a { db = update_user_password n hash a.db }, done))

abbrev has_key : Option String → Bool
has_key none = false
has_key (some k) = not (k == "")

abbrev with_key : Option String → Auth → Auth
with_key key a = record a { db = record a.db { ha_api_key = key } }

unfoldable pub api_key_generate : Request → ℕ → String → Auth → Auth × Answer
api_key_generate r now key a =
    answered a
      (do
        p ← require_admin (resolve_session r now a.db)
        raise_if (has_key a.db.ha_api_key) api_key_exists)
      (λ _. (with_key (some key) a, new_key key))

unfoldable pub api_key_rotate : Request → ℕ → String → Auth → Auth × Answer
api_key_rotate r now key a =
    answered a (require_admin (resolve_session r now a.db))
      (λ _. (with_key (some key) a, new_key key))

unfoldable pub delete_api_key : Request → ℕ → Auth → Auth × Answer
delete_api_key r now a =
    answered a (require_admin (resolve_session r now a.db)) (λ _. (with_key none a, done))

-- `_patch_system_config` of a body whose `session_expiry_days` the loop stores, and what the logins then read of it:
-- its other keys are settings that nothing here reads. A body that stores none changes nothing here.
unfoldable pub patch_system_config : Request → ℕ → Option ℤ → Auth → Auth × Answer
patch_system_config r now days a =
    answered a (require_admin (resolve_session r now a.db))
      (λ _. (record a { db = record a.db { session_expiry_days = days } }, done))

-- A request with what is made up for it (a hash, a token or a key), the start of the program, or the hourly
-- `prune_sessions`.
pub data Call : Type 0 where
  starts : String → Call
  setups : String → String → String → String → String → Call
  logins : String → String → String → Call
  ingress_logins : String → Option IngressIdentity → Call
  logouts : Request → Call
  patches : Request → String → ℕ → Call
  passwords : Request → String → String → String → Call
  generates rotates : Request → String → Call
  revokes : Request → Call
  configures : Request → Option ℤ → Call
  prunes : Call

unfoldable pub handle : Python → ℕ → Call → Auth → Auth × Answer
handle py now (starts token) a = (maybe_generate_bootstrap_token token a, done)
handle py now (setups hash token given username password) a =
    post_setup py hash token now given username password a
handle py now (logins token username password) a = post_login py token now username password a
handle py now (ingress_logins token identity) a = post_ingress_login py token now identity a
handle py now (logouts r) a = post_logout r now a
handle py now (patches r role n) a = patch_user r now role n a
handle py now (passwords r hash current next) a = change_password py r now hash current next a
handle py now (generates r key) a = api_key_generate r now key a
handle py now (rotates r key) a = api_key_rotate r now key a
handle py now (revokes r) a = delete_api_key r now a
handle py now (configures r days) a = patch_system_config r now days a
handle py now prunes a = (record a { db = prune_sessions now a.db }, done)

unfoldable pub handles : Python → List (ℕ × Call) → Auth → Auth
unfolding handle
handles py [] a = a
handles py ((now, c) ∷ cs) a = handles py cs (handle py now c a).0
