-- ===== src/LinkAuth.antt =====
-- controller/em_linkauth.py: whether a device's connection is admitted. A token that is `None` or empty
-- counts as none; `hmac.compare_digest` compares texts.
pub mod Laws
mod Tests
use echo_voice_satellite.Prelude.{
  String, Bool, true, false, Option, none, some, ◌&&◌, not, if◌then◌else◌, ◌==◌, string_eq,
  is_given,
}

pub record Verdict : Type 0 where
  pub ok : Bool
  pub reason : Option String
  pub stale_token : Bool

abbrev verdict : Bool → Option String → Bool → Verdict
verdict o r s = record { ok = o; reason = r; stale_token = s }

-- a token's truth value keeps the token
abbrev pub token : Option String → Option String
token none = none
token (some t) = if t == "" then none else some t

abbrev pub differ : Option String → Option String → Bool
differ (some p) (some e) = not (p == e)
differ none e = false
differ (some p) none = false

pub decide : Option String → Option String → Bool → Bool → Verdict
decide presented expected secure require_tls =
    let p = token presented in
    let e = token expected in
    if differ p e
    then verdict false (some "token mismatch") false
    else if require_tls && not (secure && is_given p && is_given e)
    then verdict false (some (if not secure then "plain connection" else "missing a valid token"))
        false
    else if is_given p && not (is_given e)
    then verdict true (some "token presented but none on record") true
    else verdict true none false
