-- ===== src/Button.antt =====
-- What a press of the action button means (controller/em_button.py), and the coalescing of a burst of taps
-- into one event (controller/em_tap_burst.py). A timer task is a number; the one that stands in `timer` is
-- the one that was not cancelled.
pub mod Laws
pub mod Burst
mod Tests
use echo_voice_satellite.Prelude.{
  ℕ, suc, ◌+◌, min, String, Bool, true, false, Option, none, some, List, [], ◌∷◌, leb, ◌==◌, nat_eq,
  if◌then◌else◌,
}

pub data Press : Type 0 where
  hold : Press
  tap_event : Press
  blocked : Press
  cancel : Press
  turn : Press

pub decide : ℕ → ℕ → Bool → Bool → Bool → Press
decide held_ms hold_ms muted turn_active is_tap_event =
    if leb hold_ms held_ms
    then hold
    else if is_tap_event
    then tap_event
    else if muted
    then blocked
    else if turn_active
    then cancel
    else turn

abbrev pub max_tap_count : ℕ
max_tap_count = 3

-- TAP_EVENT_NAMES, where a missing key is an error of the code
pub tap_event_name : ℕ → Option String
tap_event_name n =
    if n == 1
    then some "single"
    else if n == 2
    then some "double"
    else if n == 3
    then some "triple"
    else none

pub record TapCoalescer : Type 0 where
  pub count : ℕ
  pub timer : Option ℕ
  pub tasks : ℕ

abbrev pub idle : ℕ → TapCoalescer
idle n = record { count = 0; timer = none; tasks = n }

pub tap : TapCoalescer → TapCoalescer
tap c = record { count = c.count + 1; timer = some c.tasks; tasks = c.tasks + 1 }

-- `cancel()`
pub drop_burst : TapCoalescer → TapCoalescer
drop_burst c = idle c.tasks

-- `_expire` from where its sleep ends, with what `enabled()` answers and what is given to `emit`
pub expire : TapCoalescer → Bool → TapCoalescer × List (Option String)
expire c enabled =
    let n = min c.count max_tap_count in
    (idle c.tasks, if enabled then tap_event_name n ∷ [] else [])

pub data Step : Type 0 where
  taps : Step
  cancels : Step
  -- the sleep of a task ends; it goes on if the task was not cancelled
  wakes : ℕ → Bool → Step

pub is_timer : Option ℕ → ℕ → Bool
is_timer none i = false
is_timer (some j) i = j == i

pub step : TapCoalescer → Step → TapCoalescer × List (Option String)
step c taps = (tap c, [])
step c cancels = (drop_burst c, [])
step c (wakes i enabled) = if is_timer c.timer i then expire c enabled else (c, [])
