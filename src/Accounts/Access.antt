-- ===== src/Accounts/Access.antt =====
-- Who a request comes from, and what it may do (controller/em_auth.py). Of a request, the texts are given as they
-- are after `strip`.
use echo_voice_satellite.Prelude.{
  ℕ, String, not, ◌||◌, Option, none, some, if◌then◌else◌, ◌==◌, nat_eq, string_eq,
}
use echo_voice_satellite.Prelude.Result.{Result, ok, err}
use echo_voice_satellite.Accounts.Store.{User, Session, Db, get_user_by_id, get_session}
use echo_voice_satellite.Accounts.Login.{Refusal, not_authenticated, forbidden}

-- What follows `Bearer ` in the header, if it starts so; the cookie; and the two parameters of the query.
pub record Request : Type 0 where
  pub bearer : Option String
  pub cookie : String
  pub api_key : String
  pub token : String

pub record Principal : Type 0 where
  pub id : Option ℕ
  pub username : String
  pub role : String
  pub token : String

-- `text or None`
abbrev or_none : String → Option String
or_none s = if s == "" then none else some s

abbrev or_else : String → String → String
or_else a b = if a == "" then b else a

abbrev text_of : Option String → String
text_of none = ""
text_of (some s) = s

unfoldable pub extract_token : Request → Option String
extract_token r = or_none (or_else (text_of r.bearer) r.cookie)

unfoldable pub extract_ws_token : Request → Option String
extract_ws_token r = or_none (or_else r.cookie r.token)

abbrev integration : String → Principal
integration key = record {
  id = none;
  username = "home-assistant-integration";
  role = "integration";
  token = key;
}

abbrev keyed : String → Option String → Option Principal
keyed candidate none = none
keyed candidate (some key) =
    if key == "" || (candidate == "" || not (candidate == key))
    then none
    else some (integration candidate)

unfoldable pub resolve_api_key : Request → Db → Option Principal
resolve_api_key r db = keyed (or_else (text_of r.bearer) r.api_key) db.ha_api_key

abbrev principal : String → User → Principal
principal token u = record { id = some u.id; username = u.username; role = u.role; token = token }

abbrev of_user : String → Option User → Option Principal
of_user token none = none
of_user token (some u) = some (principal token u)

abbrev of_session : String → Request → Db → Option Session → Option Principal
of_session token r db none = resolve_api_key r db
of_session token r db (some s) = of_user token (get_user_by_id s.user_id db)

abbrev of_token : Request → ℕ → Db → Option String → Option Principal
of_token r now db none = resolve_api_key r db
of_token r now db (some token) = of_session token r db (get_session token now db)

unfoldable pub resolve_session : Request → ℕ → Db → Option Principal
unfolding resolve_api_key
resolve_session r now db = of_token r now db (extract_token r)

unfoldable pub ws_resolve_session : Request → ℕ → Db → Option Principal
unfolding resolve_api_key
ws_resolve_session r now db = of_token r now db (extract_ws_token r)

abbrev pub require_auth : Option Principal → Result Refusal Principal
require_auth none = err not_authenticated
require_auth (some p) = ok p

abbrev pub require_admin : Option Principal → Result Refusal Principal
require_admin none = err not_authenticated
require_admin (some p) = if p.role == "admin" then ok p else err forbidden

abbrev pub require_integration_or_admin : Option Principal → Result Refusal Principal
require_integration_or_admin none = err not_authenticated
require_integration_or_admin (some p) =
    if p.role == "admin" || p.role == "integration" then ok p else err forbidden
