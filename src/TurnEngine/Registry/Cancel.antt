-- ===== src/TurnEngine/Registry/Cancel.antt =====
-- Ending the turns of a device from the controller's side (controller/em_turn_engine.py).
use echo_voice_satellite.Prelude.{
  ◌&&◌, ℕ, String, ◌≡◌, refl, Bool, true, false, Option, none, some, [], ◌∷◌, ◌++◌, arith, eq_iff,
  if◌then◌else◌, ◌==◌, nat_eq, string_eq, nat_beq_iff,
}
use echo_voice_satellite.Prelude.Dict.{Dict, get, get-put}
use echo_voice_satellite.TurnEngine.Turn.{Turn, Device, wake_deny, turn_cancel, end_turn}
use echo_voice_satellite.TurnEngine.Registry.{
  Engine, owner, cancel_turns, cancel_voice_turn, with_detection, stop_voice_turn, first_live,
  admit_barge,
}

-- What `cancel_voice_turn` makes of one entry of the registry.
abbrev pub ended : (ℕ → Device) → String → String → Option Turn → Option Turn
ended ds device_id reason none = none
ended ds device_id reason (some t) =
    some (if owner ds t == device_id then end_turn t reason true else t)

get-cancel_turns :
    (ds : ℕ → Device) (d r : String) (m : Dict ℕ Turn) (k : ℕ)
    → get k (cancel_turns ds d r m) ≡ ended ds d r (get k m)
unfolding get cancel_turns
get-cancel_turns ds d r [] k = refl
get-cancel_turns ds d r ((j, t) ∷ m) k = ground (arith, get-cancel_turns ds d r m k)

-- Cancelling a device's turns ends those turns, each by `_end_turn` with the given reason, and leaves
-- every other turn, the sockets, the devices and what has been sent as they were.
pub cancel_voice_turn_lem :
    (e : Engine) (device_id reason : String) (k : ℕ)
    → let e' = (cancel_voice_turn e device_id reason).0 in
      (get k e'.turns ≡ ended e.devices device_id reason (get k e.turns))
      × (e'.audio_sockets ≡ e.audio_sockets)
      × (e'.devices ≡ e.devices)
      × (e'.sent ≡ e.sent)
unfolding cancel_voice_turn
cancel_voice_turn_lem e d r k = (get-cancel_turns e.devices d r e.turns k, refl, refl, refl)

first_live-cancel :
    (ds : ℕ → Device) (d r : String) (device : ℕ) (m : Dict ℕ Turn)
    → (ds device).device_id ≡ d
    → first_live device (cancel_turns ds d r m) ≡ none
unfolding first_live cancel_turns end_turn
first_live-cancel ds d r device [] h = refl
first_live-cancel ds d r device ((k, t) ∷ m) h = ground (
  arith,
  first_live-cancel ds d r device m h,
  eq_iff (ds t.device).device_id d,
  nat_beq_iff t.device device,
)

-- Once a device's turns are cancelled, its barge request finds no live turn: it is denied as busy, and
-- no turn changes.
pub admit_barge-cancel :
    (e : Engine) (device_id reason request_id : String) (device score threshold seq : ℕ)
    (valid : Bool)
    → (e.devices device).device_id ≡ device_id
    → let e' = (cancel_voice_turn e device_id reason).0 in
      admit_barge e' device request_id score threshold seq valid
      ≡ (record e' { sent = e'.sent ++ wake_deny device request_id "busy" ∷ [] }, false)
unfolding admit_barge cancel_voice_turn
admit_barge-cancel e d r q device score threshold seq valid h =
    rw (first_live-cancel e.devices d r device e.turns h, admit_barge)

-- Stopping a registered turn ends exactly that turn, with the detection on record if there is one, when
-- it belongs to the device, and tells the integration once; otherwise nothing changes.
pub stop_voice_turn_lem :
    (e : Engine) (d : String) (tid : ℕ) (t : Turn) (detection : Option String) (k : ℕ)
    → get tid e.turns ≡ some t
    → let (e', stopped) = stop_voice_turn e d tid detection in
      (stopped ≡ (owner e.devices t == d))
      × (get k e'.turns ≡ (
          if stopped && tid == k
          then some (end_turn (with_detection t detection) "stopped" true)
          else get k e.turns))
      × (e'.sent ≡ (if stopped then e.sent ++ turn_cancel d tid "stop" ∷ [] else e.sent))
unfolding stop_voice_turn
stop_voice_turn_lem e d tid t x k h =
    rw (h, stop_voice_turn)
      (
        ground arith,
        ground (arith, get-put tid k (end_turn (with_detection t x) "stopped" true) e.turns),
        ground arith,
      )
