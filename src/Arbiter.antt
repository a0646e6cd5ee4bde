-- ===== src/Arbiter.antt =====
-- controller/em_arbiter.py: which of the devices that heard one utterance answers. Times are ticks of the
-- loop's clock; `now - claimed_at < window` is written without the subtraction.
pub mod Laws
pub mod Admission
pub mod Voice
pub mod Held
pub mod Kept
pub mod Messages
pub mod Rounds
pub mod Rest
pub mod Barge
mod Tests
use echo_voice_satellite.Prelude.{
  ℕ, ◌+◌, String, Bool, true, false, Option, none, some, List, [], ◌∷◌, ◌++◌, ◌&&◌, not, ltb,
  if◌then◌else◌, ◌==◌, string_eq,
}

pub record WakeArbiter : Type 0 where
  pub winner : Option String
  pub claimed_at : ℕ

abbrev pub init : WakeArbiter
init = record { winner = none; claimed_at = 0 }

-- `claim(device_id, window_s)` at the time `now`
pub claim : WakeArbiter → String → ℕ → ℕ → WakeArbiter × String
claim a device_id window now =
    let won : WakeArbiter × String =
      (record { winner = some device_id; claimed_at = now }, device_id) in
    elim a.winner [
      | none ↦ won
      | some w ↦ if ltb now (a.claimed_at + window) && not (w == device_id) then (a, w) else won
    ]

abbrev pub is_winner : Option String → String → Bool
is_winner none d = false
is_winner (some w) d = w == d

pub release : WakeArbiter → String → WakeArbiter
release a device_id = if is_winner a.winner device_id then init else a

pub data Event : Type 0 where
  claims : String → ℕ → ℕ → Event
  releases : String → Event

-- A history, and what its claims were answered: the device that claimed, and the winner.
pub run : WakeArbiter → List Event → WakeArbiter × List (String × String)
run a [] = (a, [])
run a (claims d window now ∷ es) =
    let (a', w) = claim a d window now in let (a'', rest) = run a' es in (a'', (d, w) ∷ rest)
run a (releases d ∷ es) = run (release a d) es
