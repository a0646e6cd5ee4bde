-- ===== src/DataLink/Consent.antt =====
-- Which uploads are kept and acknowledged (`_accept_capture_upload` of controller/em_controller.py).
use echo_voice_satellite.Prelude.{
  String, ◌≡◌, refl, Bool, true, false, not, ◌||◌, none, some, string_eq,
}
use echo_voice_satellite.DataLink.{
  Identity, Verdict, not_stored, Owner, nobody, owner_of, consents, checksum, Stored, after_store,
  same_text,
}

owner_of-nobody : (d : Identity) → consents d nobody ≡ false
owner_of-nobody d = refl

abbrev pub was_made : Stored → Bool
was_made none = false
was_made (some (name, made)) = made

abbrev pub Admitted : Identity → String → String → Type 0
Admitted now model md5 =
    (consents now (owner_of now model) ≡ true)
    × (checksum now (owner_of now model) ≡ some md5)
    × (now.is_current ≡ true)

abbrev settle : Identity → Owner → Stored → Verdict
settle later o stored = elim stored [
  | none ↦ not_stored
  | some (name, made) ↦ after_store later o made
]

abbrev is_refused : Identity → String → String → Bool
is_refused now model md5 =
    let o = owner_of now model in
    not (consents now o) || not (same_text (checksum now o) md5) || not now.is_current
