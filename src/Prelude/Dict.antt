-- ===== src/Prelude/Dict.antt =====
-- Python's `dict` as an association list in insertion order: a write to a key that is there keeps
-- its place, a write to a new key goes to the end.
use mathlib.Core.Path.{◌≡◌, refl, subst}
use mathlib.Core.Logic.{inl, inr}
use mathlib.Core.Option.{Option, none, some}
use mathlib.Core.List.{List, [], ◌∷◌}
use native.Mathlib.Omega.{arith}
use echo_voice_satellite.Prelude.Tests.{Bool-cases, Keyed, ◌==◌, if◌then◌else◌}

abbrev pub Dict {ℓ κ} : Type ℓ → Type κ → Type (ℓ ⊔ κ)
Dict K V = List (K × V)

module _ {ℓ κ} {K : Type ℓ} {V : Type κ} ⦃e : Keyed K⦄ where
  unfoldable pub get : K → Dict K V → Option V
  get k [] = none
  get k ((j, v) ∷ m) = if j == k then some v else get k m

  unfoldable pub put : K → V → Dict K V → Dict K V
  put k v [] = (k, v) ∷ []
  put k v ((j, w) ∷ m) = if j == k then (j, v) ∷ m else (j, w) ∷ put k v m

  -- `d.pop(k, None)`, also of a list that names a key twice
  unfoldable pub remove : K → Dict K V → Dict K V
  remove k [] = []
  remove k ((j, v) ∷ m) = let rest = remove k m in if j == k then rest else (j, v) ∷ rest

  pub get-put :
      (k j : K) (v : V) (m : Dict K V) → get j (put k v m) ≡ (if k == j then some v else get j m)
  unfolding get put
  get-put k j v [] = refl
  get-put k j v ((i, w) ∷ m) =
      ground (arith, e.same_iff k j, e.same_iff i k, e.same_iff i j, get-put k j v m)

  pub get-remove :
      (k j : K) (m : Dict K V) → get j (remove k m) ≡ (if k == j then none else get j m)
  unfolding get remove
  get-remove k j [] = ground arith
  get-remove k j ((i, w) ∷ m) =
      ground (arith, e.same_iff k j, e.same_iff i k, e.same_iff i j, get-remove k j m)

  -- Every value of the dictionary.
  abbrev pub Values {μ} : (V → Type μ) → Dict K V → Type μ
  Values P [] = Unit
  Values P ((k, v) ∷ m) = P v × Values P m

  module _ {μ} (P : V → Type μ) where
    pub put-Values : (k : K) (v : V) (m : Dict K V) → Values P m → P v → Values P (put k v m)
    unfolding put
    put-Values k v [] h p = (p, tt)
    put-Values k v ((j, w) ∷ m) (hw, h) p = elim (Bool-cases (j == k)) [
      | inl same ↦ rw (same, put) (p, h)
      | inr other ↦ rw (other, put) (hw, put-Values k v m h p)
    ]

    pub get-Values : (k : K) (v : V) (m : Dict K V) → Values P m → get k m ≡ some v → P v
    unfolding get
    get-Values k v [] h e = cc
    get-Values k v ((j, w) ∷ m) (hw, h) e = elim (Bool-cases (j == k)) [
      | inl same ↦ let q : w ≡ v = ground arith in subst P q hw
      | inr other ↦ get-Values k v m h (rw other at e)
    ]
