-- ===== src/Accounts/Tests.antt =====
-- The laws of `Accounts` at concrete requests.
use echo_voice_satellite.Prelude.{
  ℕ, zero, suc, ◌+◌, ◌<◌, String, ◌≡◌, refl, ap, inl, true, false, not, ◌&&◌, none, some, List, [],
  ◌∷◌, ◌==◌, nat_eq, string_eq, arith,
}
use echo_voice_satellite.Prelude.Dict.{get, put}
use echo_voice_satellite.Prelude.Int.{pos}
use echo_voice_satellite.Prelude.Result.{ok}
use echo_voice_satellite.Ingress.{IngressIdentity, role_for}
use echo_voice_satellite.Accounts.Store.{
  User, Db, new_db, ha_user_password_sentinel, get_user_by_id, admin_count, user_count, free_name,
  set_user_role, create_session, create_user, create_ha_user,
}
use echo_voice_satellite.Accounts.Login.{
  Python, Auth, Granted, login_via_ingress, login, create_first_admin,
  maybe_generate_bootstrap_token, provision,
}
use echo_voice_satellite.Accounts.Access.{Request, Principal}
use echo_voice_satellite.Accounts.Api.{
  Call, starts, setups, logins, configures, ingress_logins, patches, handle, handles, post_setup,
  post_login, post_ingress_login, prunes, patch_check,
}
use echo_voice_satellite.Accounts.Admins.{IsSound, MatchesNone, handles-admin, post_login-unlinked}
use echo_voice_satellite.Accounts.Linked.{Numbers, AccountOf, LetIn, login_via_ingress-own}
use echo_voice_satellite.Accounts.Guard.{Guarded, handle-Guarded}
use echo_voice_satellite.Accounts.Opened.{Opened}

-- The length of a text, and the text behind one letter more than the number.
size : String → ℕ
size String.[] = 0
size (String.◌∷◌ c s) = size s + 1

numbered : String → ℕ → String
numbered s zero = String.◌∷◌ "a" s
numbered s (suc n) = String.◌∷◌ "a" (numbered s n)

size-numbered : (s : String) (n : ℕ) → size (numbered s n) ≡ size s + n + 1
unfolding size numbered
size-numbered s zero = omega arith
size-numbered s (suc n) = omega (arith, size-numbered s n)

numbers : Numbers numbered
numbers = record {
  other = λ s n e. omega (arith, ap size e, size-numbered s n);
  distinct = λ s m n e. omega (arith, ap size e, size-numbered s m, size-numbered s n);
}

-- A hash is the password itself.
abbrev py : Python
py = record {
  texts = record {
    strip = λ s. s;
    short_name = λ s. "ha";
    is_ipv4 = λ s. false;
    starts_with = λ s p. false;
  };
  verify = λ s h. not (h == ha_user_password_sentinel) && s == h;
  len = λ s. 8;
  numbered = numbered;
}

safe : MatchesNone py
safe s = refl

abbrev fresh : Auth
fresh = record { db = new_db; bootstrap_token = none }

abbrev ann : IngressIdentity
ann = record { user_id = "u1"; username = "bob"; display_name = "Ann" }

abbrev with_token : String → Request
with_token t = record { bearer = some t; cookie = ""; api_key = ""; token = "" }

-- Bob sets the controller up, and Ann, whose name is Bob's too, comes in through Home Assistant.
abbrev first_day : List (ℕ × Call)
first_day =
    (1, starts "boot")
    ∷ (2, setups "password" "t1" "boot" "bob" "password")
    ∷ (3, ingress_logins "t2" (some ann))
    ∷ []

two_accounts : user_count (handles py first_day fresh).db ≡ 2
unfolding handles numbered free_name create_ha_user provision login_via_ingress create_session
    create_user login create_first_admin maybe_generate_bootstrap_token post_ingress_login
    post_setup get put
two_accounts = refl

abbrev later_day : List (ℕ × Call)
later_day = (4, patches (with_token "t1") "readonly" 1) ∷ (5, prunes) ∷ []

both_are_admins : admin_count (handles py first_day fresh).db ≡ 2
unfolding handles numbered free_name create_ha_user provision login_via_ingress create_session
    create_user login create_first_admin maybe_generate_bootstrap_token post_ingress_login
    post_setup get put role_for
both_are_admins = refl

handles-admin_example : 0 < admin_count (handles py later_day (handles py first_day fresh)).db
handles-admin_example =
    handles-admin py first_day later_day fresh safe refl (omega (arith, both_are_admins))

-- Two administrators demote each other at once: both checks pass before either role is written, and nobody is left.
abbrev two_admins : Db
two_admins = record new_db {
  users =
      record { id = 1; username = "bob"; password_hash = "p"; role = "admin"; ha_user_id = none }
      ∷ record { id = 2; username = "eve"; password_hash = "q"; role = "admin"; ha_user_id = none }
      ∷ [];
  next_id = 3;
}

demoted_at_once :
    (patch_check "readonly" 1 two_admins ≡ ok true)
    × (patch_check "readonly" 2 two_admins ≡ ok true)
    × (admin_count (set_user_role 2 "readonly" (set_user_role 1 "readonly" two_admins)) ≡ 0)
unfolding patch_check
demoted_at_once = (refl, refl, refl)

-- After a first login through Home Assistant, the set-up is still announced as pending.
still_pending :
    (handles py
      ((1, starts "boot") ∷ (2, ingress_logins "t2" (some ann)) ∷ [])
      fresh).bootstrap_token
    ≡ some "boot"
unfolding handles numbered free_name create_ha_user provision login_via_ingress create_session
    maybe_generate_bootstrap_token post_ingress_login get put
still_pending = refl

abbrev bob : User
bob = record {
  id = 1;
  username = "bob";
  password_hash = "password";
  role = "admin";
  ha_user_id = none;
}

abbrev bob_only : Auth
bob_only = record { db = record new_db { users = bob ∷ []; next_id = 2 }; bootstrap_token = none }

bob_only-IsSound : IsSound bob_only.db
bob_only-IsSound = record { ascending = omega arith; locked = (inl refl, tt) }

login_via_ingress-own_example :
    (g : Granted) × ((login_via_ingress py "t2" 3 ann bob_only.db).1 ≡ ok g)
    × LetIn "t2" 3 (pos 30) bob_only.db g
    × (g.user.ha_user_id ≡ some "u1")
    × AccountOf py ann bob_only.db g.user
unfolding get
login_via_ingress-own_example =
    login_via_ingress-own py "t2" 3 (pos 30) ann bob_only.db numbers bob_only-IsSound refl refl

-- Bob's session, for a day
abbrev bob_in : Auth
bob_in = record bob_only {
  db = record bob_only.db {
    sessions = ("t1", record { user_id = 1; created_at = 0; expires_at = 86400 }) ∷ [];
  };
}

abbrev as_bob : Principal
as_bob = record { id = some 1; username = "bob"; role = "admin"; token = "t1" }

handle-Guarded_example :
    (u : User) × (get_user_by_id 1
        (handle py 7 (patches (with_token "t1") "readonly" 1) bob_in).0.db
      ≡ some u)
    × Guarded py 7 (patches (with_token "t1") "readonly" 1) bob_in.db bob u
handle-Guarded_example =
    handle-Guarded py 7 (patches (with_token "t1") "readonly" 1) bob_in 1 bob refl

post_login-unlinked_example :
    (u : User) × (get_user_by_id 1 (handles py first_day fresh).db ≡ some u) × (u.ha_user_id ≡ none)
unfolding handles numbered free_name create_ha_user provision login_via_ingress create_session
    create_user login create_first_admin maybe_generate_bootstrap_token post_ingress_login
    post_setup get put post_login
post_login-unlinked_example =
    post_login-unlinked py first_day fresh "t3" "bob" "password" "t3" "admin" 4 1 safe refl refl

-- Bob lets sessions last a day, and comes in again.
abbrev shortened : List (ℕ × Call)
shortened =
    (1, starts "boot")
    ∷ (2, setups "password" "t1" "boot" "bob" "password")
    ∷ (3, configures (with_token "t1") (some (pos 1)))
    ∷ (4, logins "t4" "bob" "password")
    ∷ []

-- The token is the key of the integration as well.
abbrev keyed : Auth
keyed = record bob_in { db = record bob_in.db { ha_api_key = some "t1" } }

abbrev as_integration : Principal
as_integration = record {
  id = none;
  username = "home-assistant-integration";
  role = "integration";
  token = "t1";
}
