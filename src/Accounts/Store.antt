-- ===== src/Accounts/Store.antt =====
-- The tables of users, sessions and settings, and the queries on them (controller/em_db.py). A query that breaks a
-- UNIQUE or a PRIMARY KEY constraint raises `sqlite3.IntegrityError` and changes nothing. Times are whole seconds.
use echo_voice_satellite.Prelude.{
  ℕ, zero, suc, ◌+◌, ◌-◌, ◌*◌, String, Bool, false, ◌&&◌, Option, none, some, List, [], ◌∷◌, ◌++◌,
  if◌then◌else◌, ◌==◌, nat_eq, string_eq, ltb, leb, any, length, is_given,
}
use echo_voice_satellite.Prelude.Dict.{Dict, get, put, remove}
use echo_voice_satellite.Prelude.Int.{ℤ, pos, negsuc}
use echo_voice_satellite.Prelude.Result.{Result, ok, err}

pub record User : Type 0 where
  pub id : ℕ
  pub username : String
  pub password_hash : String
  pub role : String
  pub ha_user_id : Option String

pub record Session : Type 0 where
  pub user_id : ℕ
  pub created_at : ℕ
  pub expires_at : ℕ

-- The tables, the number that AUTOINCREMENT gives out next, and three settings: the days that a session lasts, the
-- role of new users of Home Assistant, and the key of the integration. Of the first, what the logins read,
-- `int(db.get_config("session_expiry_days", "30") or 30)`, where `none` means that `int` raises, or that the database
-- takes no number as large.
pub record Db : Type 0 where
  pub users : List User
  pub next_id : ℕ
  pub sessions : Dict String Session
  pub session_expiry_days : Option ℤ
  pub ingress_default_role : Option String
  pub ha_api_key : Option String

abbrev pub new_db : Db
new_db = record {
  users = [];
  next_id = 1;
  sessions = [];
  session_expiry_days = some (pos 30);
  ingress_default_role = some "readonly";
  ha_api_key = none;
}

pub data IntegrityError : Type 0 where
  integrity_error : IntegrityError

-- `SELECT * FROM users WHERE p`, of which the code takes one row
abbrev pub find_user : (User → Bool) → List User → Option User
find_user p [] = none
find_user p (u ∷ us) = if p u then some u else find_user p us

abbrev pub has_name : String → User → Bool
has_name name u = u.username == name

abbrev pub has_id : ℕ → User → Bool
has_id n u = u.id == n

abbrev pub is_linked : String → User → Bool
is_linked ha_id u = elim u.ha_user_id [ none ↦ false | some h ↦ h == ha_id ]

abbrev pub is_admin : User → Bool
is_admin u = u.role == "admin"

abbrev pub get_user_by_username : String → Db → Option User
get_user_by_username name db = find_user (has_name name) db.users

abbrev pub get_user_by_id : ℕ → Db → Option User
get_user_by_id n db = find_user (has_id n) db.users

abbrev pub get_user_by_ha_id : String → Db → Option User
get_user_by_ha_id ha_id db = find_user (is_linked ha_id) db.users

-- `SELECT COUNT(*) FROM users WHERE p`
abbrev pub count_users : (User → Bool) → List User → ℕ
count_users p [] = 0
count_users p (u ∷ us) = if p u then suc (count_users p us) else count_users p us

abbrev pub user_count : Db → ℕ
user_count db = length db.users

abbrev pub admin_count : Db → ℕ
admin_count db = count_users is_admin db.users

abbrev pub ha_admin_count : Db → ℕ
ha_admin_count db = count_users (λ u. is_admin u && is_given u.ha_user_id) db.users

abbrev pub insert_user : String → String → String → Option String → Db → Db
insert_user name hash role ha_id db = record db {
  users =
      db.users
      ++ record {
        id = db.next_id;
        username = name;
        password_hash = hash;
        role = role;
        ha_user_id = ha_id;
      }
        ∷ [];
  next_id = db.next_id + 1;
}

abbrev pub is_taken : String → Db → Bool
is_taken name db = any (has_name name) db.users

unfoldable pub create_user : String → String → String → Db → Result IntegrityError Db
create_user name hash role db =
    if is_taken name db then err integrity_error else ok (insert_user name hash role none db)

-- No hash that bcrypt makes.
abbrev pub ha_user_password_sentinel : String
ha_user_password_sentinel = "!ha-authenticated-no-password"

-- The loop of `create_ha_user` over `base`, where `numbered` is `f"{username}-{suffix}"`; `none` means that the
-- fuel ran out.
unfoldable pub free_name : (String → ℕ → String) → ℕ → String → ℕ → String → Db → Option String
free_name numbered zero username suffix base db = none
free_name numbered (suc fuel) username suffix base db =
    let next = free_name numbered fuel username (suffix + 1) (numbered username (suffix + 1)) db in
    if is_taken base db then next else some base

unfoldable pub create_ha_user :
    (String → ℕ → String) → String → String → String → Db → Option (Result IntegrityError Db)
unfolding free_name
create_ha_user numbered ha_id username role db =
    elim (free_name numbered (user_count db + 1) username 1 username db) [
      | none ↦ none
      | some base ↦
          if any (is_linked ha_id) db.users
          then some (err integrity_error)
          else some (ok (insert_user base ha_user_password_sentinel role (some ha_id) db))
    ]

-- `UPDATE users SET … WHERE id = n`
abbrev pub update_user : ℕ → (User → User) → List User → List User
update_user n change [] = []
update_user n change (u ∷ us) = (if u.id == n then change u else u) ∷ update_user n change us

-- `set_user_role`, of a role that is one of the two
abbrev pub set_user_role : ℕ → String → Db → Db
set_user_role n role db = record db {
  users = update_user n (λ u. record u { role = role }) db.users;
}

-- `update_user_password`, of a user that there is
abbrev pub update_user_password : ℕ → String → Db → Db
update_user_password n hash db = record db {
  users = update_user n (λ u. record u { password_hash = hash }) db.users;
}

-- `now + expiry_days * 86400`, where 0 stands for the times before 1970
abbrev pub expiry : ℕ → ℤ → ℕ
expiry now (pos d) = now + d * 86400
expiry now (negsuc d) = now - (d + 1) * 86400

unfoldable pub create_session : String → ℕ → ℤ → ℕ → Db → Result IntegrityError Db
create_session token user days now db = elim (get token db.sessions) [
  | some s ↦ err integrity_error
  | none ↦ ok (record db {
    sessions =
        put token (record { user_id = user; created_at = now; expires_at = expiry now days })
          db.sessions;
  })
]

abbrev unless_expired : ℕ → Option Session → Option Session
unless_expired now none = none
unless_expired now (some s) = if ltb now s.expires_at then some s else none

unfoldable pub get_session : String → ℕ → Db → Option Session
get_session token now db = unless_expired now (get token db.sessions)

abbrev pub delete_session : String → Db → Db
delete_session token db = record db { sessions = remove token db.sessions }

-- `DELETE FROM sessions WHERE expires_at <= now`
unfoldable pub unexpired : ℕ → Dict String Session → Dict String Session
unexpired now [] = []
unexpired now ((t, s) ∷ m) =
    let rest = unexpired now m in if leb s.expires_at now then rest else (t, s) ∷ rest

unfoldable pub prune_sessions : ℕ → Db → Db
prune_sessions now db = record db { sessions = unexpired now db.sessions }
