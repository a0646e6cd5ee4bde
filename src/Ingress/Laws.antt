-- ===== src/Ingress/Laws.antt =====
-- When a login is granted without a password, and what is advertised (controller/em_ingressauth.py,
-- controller/em_hostip.py).
use echo_voice_satellite.Prelude.{
  ℕ, String, ◌≡◌, ◌≢◌, ◌↔◌, ◌⊎◌, Bool, true, false, Option, none, some, nat_eq, string_eq, eq_iff,
  arith,
}
use echo_voice_satellite.Prelude.Result.{ok, err}
use echo_voice_satellite.Ingress.{
  Texts, ingress_gateway_ip, IngressIdentity, or_empty, given_role, role_for, decide, configured,
  detected, not_ipv4, not_detected, resolve,
}

-- What the request must be for Home Assistant's word to count.
abbrev pub Vouched : Texts → Bool → Option String → Option String → Type 0
Vouched py ingress_only remote user_id =
    (ingress_only ≡ true) × (remote ≡ some ingress_gateway_ip) × (py.strip (or_empty user_id) ≢ "")

-- A request is authenticated by Home Assistant exactly when the deployment is the add-on, it came from the
-- Supervisor's gateway and it names a user; the names given do not matter for that.
pub decide-Vouched :
    (py : Texts) (ingress_only : Bool) (remote user_id username display_name : Option String)
    → (decide py ingress_only remote user_id username display_name ≢ none)
      ↔ Vouched py ingress_only remote user_id
unfolding decide
decide-Vouched py ingress_only none user_id username display_name = ground arith
decide-Vouched py ingress_only (some r) user_id username display_name =
    ground (arith, eq_iff r ingress_gateway_ip, eq_iff (py.strip (or_empty user_id)) "")

-- The identity is the user's, and it has both names, if a shortened id is never empty.
pub decide-named :
    (py : Texts) (ingress_only : Bool) (remote user_id username display_name : Option String)
    (i : IngressIdentity)
    → ((s : String) → py.short_name s ≢ "")
    → decide py ingress_only remote user_id username display_name ≡ some i
    → (i.user_id ≡ py.strip (or_empty user_id))
      × (i.user_id ≢ "")
      × (i.username ≢ "")
      × (i.display_name ≢ "")
unfolding decide
decide-named py ingress_only none user_id username display_name i short h = ground arith
decide-named py ingress_only (some r) user_id username display_name i short h =
    let id = py.strip (or_empty user_id) in
    let u = py.strip (or_empty username) in
    let d = py.strip (or_empty display_name) in
    ground (arith, eq_iff id "", eq_iff u "", eq_iff d "", short id)

other_role : ◌≢◌ {A = String} "readonly" "admin"
other_role = λ e. cc

given_admin : (n : ℕ) (v : String) → (given_role n v ≡ "admin") ↔ ((n ≡ 0) ⊎ (v ≡ "admin"))
given_admin n v = ground (arith, other_role, eq_iff v "admin", eq_iff v "readonly")

given_other : (n : ℕ) (v : String) → given_role n v ≢ "admin" → given_role n v ≡ "readonly"
given_other n v h = ground (arith, other_role, eq_iff v "admin", eq_iff v "readonly")

-- A new user is an administrator only if there is none yet or the configured role says so to the letter; any
-- other is read-only.
pub role_for-admin :
    (py : Texts) (n : ℕ) (value : Option String)
    → let r = role_for py n value in
      ((r ≡ "admin") ↔ ((n ≡ 0) ⊎ (py.strip (or_empty value) ≡ "admin")))
      × (r ≢ "admin" → r ≡ "readonly")
unfolding role_for
role_for-admin py n value = let v = py.strip (or_empty value) in (given_admin n v, given_other n v)

-- What the controller advertises is either the configured text, which is an IPv4 address, or the detected one if
-- nothing is configured; it is never made up, and a configured text that is no address is refused, whatever
-- was detected.
pub resolve-address :
    (py : Texts) (value found : Option String)
    → let v = py.strip (or_empty value) in
      let r = resolve py value found in
      (v ≢ "" → py.is_ipv4 v ≡ true → r ≡ ok (v, configured))
      × (v ≢ "" → py.is_ipv4 v ≡ false → r ≡ err not_ipv4)
      × ((a : String) → v ≡ "" → found ≡ some a → a ≢ "" → r ≡ ok (a, detected))
      × (v ≡ "" → (found ≡ none) ⊎ (found ≡ some "") → r ≡ err not_detected)
unfolding resolve
resolve-address py value none =
    let v = py.strip (or_empty value) in
    (
      λ n i. ground (arith, eq_iff v ""),
      λ n i. ground (arith, eq_iff v ""),
      λ a e f. cc,
      λ e f. ground (arith, eq_iff v ""),
    )
resolve-address py value (some b) =
    let v = py.strip (or_empty value) in
    (
      λ n i. ground (arith, eq_iff v ""),
      λ n i. ground (arith, eq_iff v ""),
      λ a e f n. ground (arith, eq_iff v "", eq_iff b ""),
      λ e f. ground (arith, eq_iff v "", eq_iff b ""),
    )
