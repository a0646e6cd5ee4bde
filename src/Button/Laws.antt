-- ===== src/Button/Laws.antt =====
-- What a press may mean (controller/em_button.py).
use echo_voice_satellite.Prelude.{ℕ, ◌<◌, ◌≡◌, ◌≢◌, ◌↔◌, Bool, false, arith}
use echo_voice_satellite.Button.{Press, cancel, turn, decide}

-- A press starts a turn exactly when it is a tap, taps are not bound to an event, the microphone is not
-- muted and no turn is active.
pub decide-turn :
    (held_ms hold_ms : ℕ) (muted active is_tap_event : Bool)
    → (decide held_ms hold_ms muted active is_tap_event ≡ turn)
      ↔ ((held_ms < hold_ms) × (is_tap_event ≡ false) × (muted ≡ false) × (active ≡ false))
unfolding decide
decide-turn held_ms hold_ms muted active is_tap_event = ground arith

-- Muting has no say over the gestures that are not speech: such a press means the same muted and not.
pub decide_gesture :
    (held_ms hold_ms : ℕ) (muted active is_tap_event : Bool) (p : Press)
    → p ≢ turn
    → p ≢ cancel
    → decide held_ms hold_ms false active is_tap_event ≡ p
    → decide held_ms hold_ms muted active is_tap_event ≡ p
unfolding decide
decide_gesture held_ms hold_ms muted active is_tap_event p nt nc h = ground arith
