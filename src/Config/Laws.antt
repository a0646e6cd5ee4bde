-- ===== src/Config/Laws.antt =====
-- The effective configuration of a device (controller/em_config_sections.py).
use echo_voice_satellite.Prelude.{
  String, ◌≡◌, refl, Option-cases, inl, inr, Option, none, some, List, [], ◌∷◌, ◌||◌, elem, arith,
  eq_iff, if◌then◌else◌, string_eq,
}
use echo_voice_satellite.Prelude.Dict.{Dict, get, put, get-put}
use echo_voice_satellite.Config.{state_keys, keys_for, overlay, merge}

module _ {ℓ} {V : Type ℓ} where
  -- A value of the device's own, or else one of the fleet's.
  abbrev pub first_of : Option V → Option V → Option V
  first_of none w = w
  first_of (some v) w = some v

  -- What is read under a key after an overlay: the device's value, if it has one and the key is among those.
  pub get-overlay :
      (keys : List String) (d g : Dict String V) (k : String)
      → get k (overlay keys d g) ≡ (if elem k keys then first_of (get k d) (get k g) else get k g)
  unfolding overlay
  get-overlay [] d g k = refl
  get-overlay (key ∷ keys) d g k = elim (Option-cases (get key d)) [
    | inl q ↦ rw (q, overlay) (ground (arith, eq_iff k key, get-overlay keys d g k, q))
    | inr (v, q) ↦
        rw (q, overlay)
          (ground (
            arith,
            eq_iff k key,
            eq_iff key k,
            get-overlay keys d (put key v g) k,
            get-put key k v g,
            q,
          ))
  ]

  -- What the effective configuration holds under a key: the device's value, if it has one and the key is its
  -- own state or in one of its sections, and the fleet's value in every other case.
  pub get-merge :
      (g d : Dict String V) (ids : List String) (k : String)
      → get k (merge g d ids) ≡ (
          if elem k state_keys || elem k (keys_for ids)
          then first_of (get k d) (get k g)
          else get k g)
  unfolding merge
  get-merge g d ids k = ground (
    arith,
    get-overlay state_keys d (overlay (keys_for ids) d g) k,
    get-overlay (keys_for ids) d g k,
  )
