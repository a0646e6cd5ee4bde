-- ===== src/TurnEngine/Registry/Barge.antt =====
-- Barge requests of a device, and the registry's calls as a whole (controller/em_turn_engine.py).
use echo_voice_satellite.Prelude.{
  ℕ, String, ◌≡◌, ◌⊎◌, inl, inr, Option-cases, refl, Bool, true, false, none, some, [], ◌∷◌, ◌++◌,
  arith, not, ◌&&◌, if◌then◌else◌, ◌==◌, nat_eq, nat_beq_iff,
}
use echo_voice_satellite.Prelude.Dict.{Dict, get, get-put}
use echo_voice_satellite.TurnEngine.Turn.{Turn, wake_deny, turn_cancel, speaker_flush, end_turn}
use echo_voice_satellite.TurnEngine.Registry.{Engine, first_live, admit_barge}

-- The turn is live, and its device is this object.
abbrev pub is_live : ℕ → Turn → Bool
is_live device t = t.device == device && not t.cancelled

-- No turn of the list is live on the device.
abbrev pub NoneLive : ℕ → Dict ℕ Turn → Type 0
NoneLive device [] = Unit
NoneLive device ((k, t) ∷ m) = (is_live device t ≡ false) × NoneLive device m

first_live-NoneLive :
    (device : ℕ) (m : Dict ℕ Turn) → first_live device m ≡ none → NoneLive device m
unfolding first_live
first_live-NoneLive device [] h = tt
first_live-NoneLive device ((k, t) ∷ m) h =
    (ground arith, first_live-NoneLive device m (ground arith))

first_live-get :
    (device : ℕ) (m : Dict ℕ Turn) (k : ℕ) (t : Turn)
    → first_live device m ≡ some (k, t)
    → is_live device t ≡ true
unfolding first_live
first_live-get device [] k t h = cc
first_live-get device ((j, u) ∷ m) k t h = ground (arith, first_live-get device m k t)

unanswered :
    (e : Engine) (device : ℕ) (q : String) (score threshold seq : ℕ) (valid : Bool)
    → first_live device e.turns ≡ none
    → (admit_barge e device q score threshold seq valid).1 ≡ false
unfolding admit_barge
unanswered e device q score threshold seq valid n = rw (n, admit_barge) refl

invalid :
    (e : Engine) (device : ℕ) (q : String) (score threshold seq : ℕ)
    → (admit_barge e device q score threshold seq false).1 ≡ false
unfolding admit_barge
invalid e device q score threshold seq = elim (Option-cases (first_live device e.turns)) [
  | inl n ↦ rw (n, admit_barge) refl
  | inr (p, s) ↦ rw (s, admit_barge) refl
]

denied_valid :
    (e : Engine) (device : ℕ) (q : String) (score threshold seq : ℕ) (valid : Bool) (p : ℕ × Turn)
    → first_live device e.turns ≡ some p
    → (admit_barge e device q score threshold seq valid).1 ≡ false
    → let e' = (admit_barge e device q score threshold seq valid).0 in
      (e'.turns ≡ e.turns)
      × (e'.devices ≡ e.devices)
      × ((NoneLive device e.turns × (e'.sent ≡ e.sent ++ wake_deny device q "busy" ∷ []))
          ⊎ ((valid ≡ false) × (e'.sent ≡ e.sent ++ wake_deny device q "disconnected" ∷ [])))
unfolding admit_barge
denied_valid e device q score threshold seq true p s h = absurd (cc)
denied_valid e device q score threshold seq false p s h =
    rw (s, admit_barge) (refl, refl, inr (refl, refl))

-- A barge request that is denied changes no turn and no device; it is denied only if no turn is live
-- on the device or the admission is no longer valid, and the device is told which.
pub admit_barge_denied :
    (e : Engine) (device : ℕ) (q : String) (score threshold seq : ℕ) (valid : Bool)
    → (admit_barge e device q score threshold seq valid).1 ≡ false
    → let e' = (admit_barge e device q score threshold seq valid).0 in
      (e'.turns ≡ e.turns)
      × (e'.devices ≡ e.devices)
      × ((NoneLive device e.turns × (e'.sent ≡ e.sent ++ wake_deny device q "busy" ∷ []))
          ⊎ ((valid ≡ false) × (e'.sent ≡ e.sent ++ wake_deny device q "disconnected" ∷ [])))
unfolding admit_barge
admit_barge_denied e device q score threshold seq valid h =
    elim (Option-cases (first_live device e.turns)) [
      | inl n ↦ rw (n, admit_barge) (refl, refl, inl (first_live-NoneLive device e.turns n, refl))
      | inr (p, s) ↦ denied_valid e device q score threshold seq valid p s h
    ]

-- A barge request that is granted ends the first live turn of the device as barged, and no other;
-- the integration is told, the device is flushed if it speaks, and it has the request on record.
pub admit_barge-granted :
    (e : Engine) (device : ℕ) (q : String) (score threshold seq : ℕ) (k : ℕ) (t : Turn) (j : ℕ)
    → first_live device e.turns ≡ some (k, t)
    → let (e', granted) = admit_barge e device q score threshold seq true in
      (granted ≡ true)
      × (is_live device t ≡ true)
      × (get j e'.turns ≡ (if k == j then some (end_turn t "barged" true) else get j e.turns))
      × ((e'.devices device).barge_request_id ≡ some q)
      × ((e'.devices device).cancel_event ≡ true)
      × (e'.sent
          ≡ e.sent
            ++ turn_cancel (e.devices device).device_id t.turn_id "barge"
              ∷ (if (e.devices device).speaking then speaker_flush device ∷ [] else []))
unfolding admit_barge
admit_barge-granted e device q score threshold seq k t j h =
    rw (h, admit_barge)
      (
        refl,
        first_live-get device e.turns k t h,
        get-put k j (end_turn t "barged" true) e.turns,
        ground (arith, nat_beq_iff device device),
        ground (arith, nat_beq_iff device device),
        refl,
      )

-- A barge request is granted just when the admission is valid and a turn is live on the device. It then ends
-- one live turn of the device as barged, and no other; the integration is told of it, a device that speaks is
-- flushed, and the device has the request on record. Else no turn and no device changes, and the device is told
-- that it is busy if no turn is live on it, or that the admission is gone.
pub admit_barge-answers :
    (e : Engine) (device : ℕ) (q : String) (score threshold seq : ℕ) (valid : Bool) (j : ℕ)
    → let (e', granted) = admit_barge e device q score threshold seq valid in
      ((granted ≡ false)
        × (e'.turns ≡ e.turns)
        × (e'.devices ≡ e.devices)
        × ((NoneLive device e.turns × (e'.sent ≡ e.sent ++ wake_deny device q "busy" ∷ []))
            ⊎ ((valid ≡ false) × (e'.sent ≡ e.sent ++ wake_deny device q "disconnected" ∷ []))))
      ⊎ ((k : ℕ) × (t : Turn) × (valid ≡ true)
          × (granted ≡ true)
          × (is_live device t ≡ true)
          × (get j e'.turns ≡ (if k == j then some (end_turn t "barged" true) else get j e.turns))
          × ((e'.devices device).barge_request_id ≡ some q)
          × ((e'.devices device).cancel_event ≡ true)
          × (e'.sent
              ≡ e.sent
                ++ turn_cancel (e.devices device).device_id t.turn_id "barge"
                  ∷ (if (e.devices device).speaking then speaker_flush device ∷ [] else [])))
admit_barge-answers e device q score threshold seq true j =
    elim (Option-cases (first_live device e.turns)) [
      | inl n ↦
          let h = unanswered e device q score threshold seq true n in
          let (turns, devices, told) = admit_barge_denied e device q score threshold seq true h in
          inl (h, turns, devices, told)
      | inr ((k, t), s) ↦
          let (granted, live, ended, request, event, told) =
            admit_barge-granted e device q score threshold seq k t j s in
          inr (k, t, refl, granted, live, ended, request, event, told)
    ]
admit_barge-answers e device q score threshold seq false j =
    let h = invalid e device q score threshold seq in
    let (turns, devices, told) = admit_barge_denied e device q score threshold seq false h in
    inl (h, turns, devices, told)
