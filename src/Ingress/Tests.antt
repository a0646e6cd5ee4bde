-- ===== src/Ingress/Tests.antt =====
-- The laws of `Ingress` at concrete requests.
use echo_voice_satellite.Prelude.{
  String, ◌≡◌, ◌≢◌, ◌↔◌, ◌⊎◌, refl, true, false, none, some, Option, ℕ, string_eq, nat_eq, ◌==◌,
}
use echo_voice_satellite.Prelude.Result.{ok, err}
use echo_voice_satellite.Ingress.{
  Texts, IngressIdentity, role_for, decide, resolve, configured, detected, not_ipv4, not_detected,
}
use echo_voice_satellite.Ingress.Laws.{decide-named, role_for-admin, resolve-address}

-- Texts without blanks, of which one is an address.
abbrev texts : Texts
texts = record {
  strip = λ s. s;
  short_name = λ s. "ha-u1";
  is_ipv4 = λ s. s == "192.168.1.9";
  starts_with = λ s p. false;
}

abbrev ann : IngressIdentity
ann = record { user_id = "u1"; username = "ha-u1"; display_name = "ha-u1" }

vouched : decide texts true (some "172.30.32.2") (some "u1") none none ≡ some ann
unfolding decide
vouched = refl

abbrev u1 : String
u1 = "u1"

abbrev typed : String
typed = "192.168.1"

abbrev capital : String
capital = "Admin"

abbrev bridge : Option String
bridge = some "172.17.0.2"

decide-named_example :
    (ann.user_id ≡ u1) × (ann.user_id ≢ "") × (ann.username ≢ "") × (ann.display_name ≢ "")
decide-named_example =
    decide-named texts true (some "172.30.32.2") (some "u1") none none ann (λ s. cc) vouched

role_for-admin_example :
    ((role_for texts 1 (some capital) ≡ "admin") ↔ ((◌≡◌ {A = ℕ} 1 0) ⊎ (capital ≡ "admin")))
    × (role_for texts 1 (some capital) ≢ "admin" → role_for texts 1 (some capital) ≡ "readonly")
role_for-admin_example = role_for-admin texts 1 (some capital)

resolve-address_example :
    let r = resolve texts (some typed) (bridge) in
    (typed ≢ "" → texts.is_ipv4 typed ≡ true → r ≡ ok (typed, configured))
    × (typed ≢ "" → texts.is_ipv4 typed ≡ false → r ≡ err not_ipv4)
    × ((a : String) → typed ≡ "" → bridge ≡ some a → a ≢ "" → r ≡ ok (a, detected))
    × (typed ≡ "" → (bridge ≡ none) ⊎ (bridge ≡ some "") → r ≡ err not_detected)
resolve-address_example = resolve-address texts (some typed) (bridge)
