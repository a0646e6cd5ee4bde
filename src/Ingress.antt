-- ===== src/Ingress.antt =====
-- Whom Home Assistant vouches for (controller/em_ingressauth.py) and which address devices are told to dial
-- (`resolve` and `looks_containerised` of controller/em_hostip.py). Python's `str` and `ipaddress` are the
-- record `Texts`.
pub mod Laws
mod Tests
use echo_voice_satellite.Prelude.{
  ℕ, String, Bool, true, false, not, ◌&&◌, ◌||◌, Option, none, some, List, [], ◌∷◌, elem, any,
  if◌then◌else◌, ◌==◌, nat_eq, string_eq,
}
use echo_voice_satellite.Prelude.Result.{Result, ok, err}

-- `str.strip`, `f"ha-{s[:12]}"`, whether `ipaddress.IPv4Address` takes a text, and `str.startswith`.
pub record Texts : Type 0 where
  pub strip : String → String
  pub short_name : String → String
  pub is_ipv4 : String → Bool
  pub starts_with : String → String → Bool

abbrev pub ingress_gateway_ip : String
ingress_gateway_ip = "172.30.32.2"

pub record IngressIdentity : Type 0 where
  pub user_id : String
  pub username : String
  pub display_name : String

-- `value or ""`
abbrev pub or_empty : Option String → String
or_empty none = ""
or_empty (some s) = s

-- `a or b` on texts
abbrev pub or_text : String → String → String
or_text a b = if a == "" then b else a

-- `value in VALID_ROLES`
abbrev pub is_role : String → Bool
is_role s = s == "admin" || s == "readonly"

abbrev pub given_role : ℕ → String → String
given_role n value = if n == 0 then "admin" else if is_role value then value else "readonly"

unfoldable pub role_for : Texts → ℕ → Option String → String
role_for py existing_ha_admins configured_default =
    given_role existing_ha_admins (py.strip (or_empty configured_default))

abbrev same_text : Option String → String → Bool
same_text none s = false
same_text (some t) s = t == s

abbrev pub identity_of : Texts → String → String → String → IngressIdentity
identity_of py id username display_name = record {
  user_id = id;
  username = or_text username (or_text display_name (py.short_name id));
  display_name = or_text display_name (or_text username (py.short_name id));
}

unfoldable pub decide :
    Texts
    → Bool
    → Option String
    → Option String
    → Option String
    → Option String
    → Option IngressIdentity
decide py ingress_only remote user_id username display_name =
    let id = py.strip (or_empty user_id) in
    if not ingress_only
    then none
    else if not (same_text remote ingress_gateway_ip)
    then none
    else if id == ""
    then none
    else some (identity_of py id (py.strip (or_empty username)) (py.strip (or_empty display_name)))

pub data Source : Type 0 where
  configured detected : Source

pub data ServerIpError : Type 0 where
  not_ipv4 not_detected : ServerIpError

abbrev detected_address : Option String → Result ServerIpError (String × Source)
detected_address none = err not_detected
detected_address (some a) = if a == "" then err not_detected else ok (a, detected)

unfoldable pub resolve :
    Texts → Option String → Option String → Result ServerIpError (String × Source)
resolve py value found =
    let v = py.strip (or_empty value) in
    if v == ""
    then detected_address found
    else if py.is_ipv4 v
    then ok (v, configured)
    else err not_ipv4

abbrev pub bridge_nets : List String
bridge_nets = "172.17." ∷ "172.18." ∷ "172.19." ∷ "172.20." ∷ "172.21." ∷ "172.22." ∷ "172.23." ∷ []

pub looks_containerised : Texts → String → Bool
looks_containerised py address = any (λ net. py.starts_with address net) bridge_nets

-- `server_ip`: the address, and whether the log warns of it
unfoldable pub server_ip :
    Texts → Option String → Option String → Result ServerIpError (String × Bool)
unfolding looks_containerised
server_ip py value found = elim (resolve py value found) [
  | err e ↦ err e
  | ok (a, configured) ↦ ok (a, false)
  | ok (a, detected) ↦ ok (a, looks_containerised py a)
]
