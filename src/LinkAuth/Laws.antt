-- ===== src/LinkAuth/Laws.antt =====
-- The rules of controller/em_linkauth.py.
use echo_voice_satellite.Prelude.{
  Option-cases, inl, inr, String, ◌≡◌, refl, ◌↔◌, Bool, true, false, Option, none, some, arith,
  string_eq, eq_iff,
}
use echo_voice_satellite.LinkAuth.{token, decide}

-- The token on record, if one is asked for, is the one that is presented.
abbrev pub Proves : Option String → Option String → Type 0
Proves (some p) (some e) = p ≡ e
Proves none e = ⊥
Proves (some p) none = ⊥

abbrev pub Contradicts : Option String → Option String → Type 0
Contradicts (some p) (some e) = ¬ (p ≡ e)
Contradicts none e = ⊥
Contradicts (some p) none = ⊥

module _ (p e : Option String) (x y : Option String) (secure : Bool) (qp : token x ≡ p)
    (qe : token y ≡ e) where
  strict : ((decide x y secure true).ok ≡ true) ↔ ((secure ≡ true) × Proves p e)
  unfolding decide
  strict = elim_tokens p e qp qe
    where
      elim_tokens :
          (p e : Option String)
          → token x ≡ p
          → token y ≡ e
          → ((decide x y secure true).ok ≡ true) ↔ ((secure ≡ true) × Proves p e)
      elim_tokens none e qp qe = (λ h. ground (arith, h), λ h. absurd h.1)
      elim_tokens (some p) none qp qe = (λ h. ground (arith, h), λ h. absurd h.1)
      elim_tokens (some p) (some e) qp qe =
          (λ h. ground (arith, h, eq_iff p e), λ h. ground (arith, h, eq_iff p e))

  lenient : ((decide x y secure false).ok ≡ false) ↔ Contradicts p e
  unfolding decide
  lenient = elim_tokens p e qp qe
    where
      elim_tokens :
          (p e : Option String)
          → token x ≡ p
          → token y ≡ e
          → ((decide x y secure false).ok ≡ false) ↔ Contradicts p e
      elim_tokens none e qp qe = (λ h. ground (arith, h), λ h. absurd h)
      elim_tokens (some p) none qp qe = (λ h. ground (arith, h), λ h. absurd h)
      elim_tokens (some p) (some e) qp qe =
          (λ h q. ground (arith, h, q, eq_iff p e), λ h. ground (arith, eq_iff p e, h))

-- With TLS required, a device is admitted exactly when it came over TLS with the token on record.
pub decide-strict :
    (presented expected : Option String) (secure : Bool)
    → ((decide presented expected secure true).ok ≡ true)
      ↔ ((secure ≡ true) × Proves (token presented) (token expected))
decide-strict x y secure = strict (token x) (token y) x y secure refl refl

-- Otherwise a device is refused exactly when it presents another token than the one on record.
pub decide-lenient :
    (presented expected : Option String) (secure : Bool)
    → ((decide presented expected secure false).ok ≡ false)
      ↔ Contradicts (token presented) (token expected)
decide-lenient x y secure = lenient (token x) (token y) x y secure refl refl

-- A token that nothing on record knows is worth exactly what no token is.
pub decide_unknown :
    (presented expected : Option String) (secure require_tls : Bool)
    → token expected ≡ none
    → (decide presented expected secure require_tls).ok
      ≡ (decide none expected secure require_tls).ok
unfolding decide
decide_unknown x y secure r q = elim (Option-cases (token x)) [
  | inl p ↦ rw (p, q, decide) (ground arith)
  | inr (t, p) ↦ rw (p, q, decide) (ground arith)
]
