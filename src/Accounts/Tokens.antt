-- ===== src/Accounts/Tokens.antt =====
-- What holds of all rows of the table of sessions, over its queries (controller/em_db.py).
use echo_voice_satellite.Prelude.{
  ℕ, String, ◌≡◌, ◌≢◌, refl, sym, subst, inl, inr, none, some, [], ◌∷◌, ◌==◌, nat_eq, string_eq,
  eq_iff, leb, All, arith, Bool-cases,
}
use echo_voice_satellite.Prelude.Dict.{Dict, get, put, remove}
use echo_voice_satellite.Accounts.Store.{Session, unexpired}

module _ {κ} (P : String × Session → Type κ) where
  pub put-All :
      (token : String) (s : Session) (m : Dict String Session)
      → P (token, s)
      → All P m
      → All P (put token s m)
  unfolding put
  put-All token s [] p h = (p, tt)
  put-All token s ((t, v) ∷ m) p (q, h) = elim (Bool-cases (t == token)) [
    | inl e ↦ rw e (subst (λ k. P (k, s)) (sym ((eq_iff t token).0 e)) p, h)
    | inr e ↦ rw e (q, put-All token s m p h)
  ]

  pub remove-All : (token : String) (m : Dict String Session) → All P m → All P (remove token m)
  unfolding remove
  remove-All token [] h = tt
  remove-All token ((t, v) ∷ m) (q, h) = elim (Bool-cases (t == token)) [
    | inl e ↦ rw e (remove-All token m h)
    | inr e ↦ rw e (q, remove-All token m h)
  ]

  pub unexpired-All : (now : ℕ) (m : Dict String Session) → All P m → All P (unexpired now m)
  unfolding unexpired
  unexpired-All now [] h = tt
  unexpired-All now ((t, v) ∷ m) (q, h) = elim (Bool-cases (leb v.expires_at now)) [
    | inl e ↦ rw e (unexpired-All now m h)
    | inr e ↦ rw e (q, unexpired-All now m h)
  ]

  pub get-All :
      (token : String) (s : Session) (m : Dict String Session)
      → All P m
      → get token m ≡ some s
      → P (token, s)
  unfolding get
  get-All token s [] h e = cc
  get-All token s ((t, v) ∷ m) (q, h) e = elim (Bool-cases (t == token)) [
    | inl same ↦
        let key : t ≡ token = (eq_iff t token).0 same in
        let value : v ≡ s = ground arith in
        subst (λ k. P (k, s)) key (subst (λ w. P (t, w)) value q)
    | inr other ↦ get-All token s m h (rw other at e)
  ]

-- A token that no row has is not found.
pub absent :
    (token : String) (m : Dict String Session) → All (λ (t, s). t ≢ token) m → get token m ≡ none
unfolding get
absent token [] h = refl
absent token ((t, v) ∷ m) (q, h) = ground (arith, eq_iff t token, absent token m h)

-- What is removed is gone.
pub remove-absent :
    (token : String) (m : Dict String Session) → All (λ (t, s). t ≢ token) (remove token m)
unfolding remove
remove-absent token [] = tt
remove-absent token ((t, v) ∷ m) = elim (Bool-cases (t == token)) [
  | inl e ↦ rw e (remove-absent token m)
  | inr e ↦ rw e ((λ q. let same = (eq_iff t token).1 q in cc), remove-absent token m)
]
