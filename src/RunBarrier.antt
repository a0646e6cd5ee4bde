-- ===== src/RunBarrier.antt =====
-- controller/em_runbarrier.py: which pipeline events of an aborted run are kept from the next turn.
mod Tests
use echo_voice_satellite.Prelude.{
  ◌≡◌, refl, Bool, true, false, List, [], ◌∷◌, ◌++◌, arith, if◌then◌else◌,
}

pub record RunBarrier : Type 0 where
  pub armed : Bool
  pub active : Bool

abbrev pub init : RunBarrier
init = record { armed = false; active = false }

unfoldable pub abort : RunBarrier → RunBarrier
abort b = record b { armed = true }

unfoldable pub begin_turn : RunBarrier → RunBarrier
begin_turn b = record { armed = false; active = b.armed }

unfoldable pub end_turn : RunBarrier → RunBarrier
end_turn b = record b { active = false }

-- The new barrier, and whether the event is dropped.
unfoldable pub discards : RunBarrier → Bool → RunBarrier × Bool
discards b is_run_start =
    if b.active
    then if is_run_start then (record b { active = false }, false) else (b, true)
    else (b, false)

-- The events that reach the turn, each told by whether it is a RUN_START.
unfoldable pub deliver : RunBarrier → List Bool → RunBarrier × List Bool
deliver b [] = (b, [])
deliver b (e ∷ es) =
    let (b', dropped) = discards b e in
    let (b'', rest) = deliver b' es in (b'', if dropped then rest else e ∷ rest)

-- The events from the first RUN_START on.
abbrev pub from_run_start : List Bool → List Bool
from_run_start [] = []
from_run_start (true ∷ es) = true ∷ es
from_run_start (false ∷ es) = from_run_start es

deliver_inactive : (b : RunBarrier) (es : List Bool) → b.active ≡ false → deliver b es ≡ (b, es)
unfolding deliver discards
deliver_inactive b [] h = refl
deliver_inactive b (e ∷ es) h = ground (arith, deliver_inactive b es h)

deliver_active :
    (b : RunBarrier) (es : List Bool) → b.active ≡ true → (deliver b es).1 ≡ from_run_start es
unfolding deliver discards
deliver_active b [] h = refl
deliver_active b (true ∷ es) h =
    ground (arith, deliver_inactive (record b { active = false }) es refl)
deliver_active b (false ∷ es) h = ground (arith, deliver_active b es h)

deliver-armed : (b : RunBarrier) (es : List Bool) → (deliver b es).0.armed ≡ b.armed
unfolding deliver discards
deliver-armed b [] = refl
deliver-armed b (e ∷ es) =
    ground (arith, deliver-armed b es, deliver-armed (record b { active = false }) es)

-- After an abort during a turn, the next turn sees the events from the first RUN_START on, that one
-- included, and nothing of what came before it; the turn after that sees every event of its own,
-- whether a RUN_START came or not.
pub deliver_after_abort :
    (b : RunBarrier) (next after : List Bool)
    → let first = deliver (begin_turn (end_turn (abort b))) next in
      let second = deliver (begin_turn (end_turn first.0)) after in
      (first.1 ≡ from_run_start next) × (second.1 ≡ after)
unfolding begin_turn end_turn abort
deliver_after_abort b next after =
    let b1 = begin_turn (end_turn (abort b)) in
    (
      deliver_active b1 next refl,
      ground (
        arith,
        deliver-armed b1 next,
        deliver_inactive (begin_turn (end_turn (deliver b1 next).0)) after,
      ),
    )
