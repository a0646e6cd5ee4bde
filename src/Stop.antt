-- ===== src/Stop.antt =====
-- controller/em_stop.py: whether a device's `stop_detected` report still belongs to the armed turn.
-- Monotonic times are whole numbers of clock ticks; turn ids and generations are Python integers.
pub mod Laws
mod Tests
use echo_voice_satellite.Prelude.{
  ℕ, String, Bool, Option, none, some, List, [], ◌∷◌, leb, not, ◌&&◌, ◌||◌, ◌==◌, if◌then◌else◌,
  string_eq,
}
use echo_voice_satellite.Prelude.Int.{ℤ, pos, leb_ℤ, int_eq}

pub data Action : Type 0 where
  armed disarmed accept ignore : Action

pub record Decision : Type 0 where
  pub action : Action
  pub reason : String

abbrev decision : Action → String → Decision
decision a r = record { action = a; reason = r }

pub record Arm : Type 0 where
  pub turn_id : ℤ
  pub generation : ℤ
  pub phase : String
  pub expires_mono : ℕ

pub record StopState : Type 0 where
  pub arm_state : Option Arm
  pub last_generation : ℤ
  pub accepted_generation : Option ℤ

abbrev pub init : StopState
init = record { arm_state = none; last_generation = pos 0; accepted_generation = none }

abbrev is_phase : String → Bool
is_phase p = p == "thinking" || p == "playback" || p == "timer"

pub arm : StopState → ℤ → ℤ → String → ℕ → StopState × Decision
arm s turn_id generation phase expires_mono =
    if leb_ℤ turn_id (pos 0)
    then (s, decision ignore "invalid turn")
    else if not (is_phase phase)
    then (s, decision ignore "invalid phase")
    else if leb_ℤ generation s.last_generation
    then (s, decision ignore "stale generation")
    else (
      record {
        arm_state = some (record {
          turn_id = turn_id;
          generation = generation;
          phase = phase;
          expires_mono = expires_mono;
        });
        last_generation = generation;
        accepted_generation = none;
      },
      decision armed "",
    )

-- `generation is not None and generation != arm.generation`
abbrev is_other : Option ℤ → ℤ → Bool
is_other none g = Bool.false
is_other (some k) g = not (k == g)

disarm_armed : StopState → Arm → Option ℤ → StopState × Decision
disarm_armed s a generation =
    if is_other generation a.generation
    then (s, decision ignore "stale generation")
    else (record s { arm_state = none }, decision disarmed "")

pub disarm : StopState → Option ℤ → StopState × Decision
unfolding disarm_armed
disarm s generation = elim s.arm_state [
  | none ↦ (s, decision ignore "not armed")
  | some a ↦ disarm_armed s a generation
]

abbrev is_accepted : Option ℤ → ℤ → Bool
is_accepted none g = Bool.false
is_accepted (some k) g = g == k

detected_armed : StopState → Arm → ℤ → ℤ → String → ℕ → StopState × Decision
detected_armed s a turn_id generation phase now_mono =
    if not (generation == a.generation)
    then (s, decision ignore "stale generation")
    else if leb a.expires_mono now_mono
    then (record s { arm_state = none }, decision ignore "arm expired")
    else if not (turn_id == a.turn_id)
    then (s, decision ignore "wrong turn")
    else if not (phase == a.phase)
    then (s, decision ignore "wrong phase")
    else (
      record s { arm_state = none; accepted_generation = some a.generation },
      decision accept "",
    )

pub detected : StopState → ℤ → ℤ → String → ℕ → StopState × Decision
unfolding detected_armed
detected s turn_id generation phase now_mono = elim s.arm_state [
  | none ↦
      if is_accepted s.accepted_generation generation
      then (s, decision ignore "duplicate detection")
      else (s, decision ignore "not armed")
  | some a ↦ detected_armed s a turn_id generation phase now_mono
]

pub expire : StopState → ℕ → StopState × Decision
expire s now_mono = elim s.arm_state [
  | none ↦ (s, decision ignore "not expired")
  | some a ↦
      if leb a.expires_mono now_mono
      then (record s { arm_state = none }, decision disarmed "arm expired")
      else (s, decision ignore "not expired")
]

-- One call of the controller.
pub data Call : Type 0 where
  arms : ℤ → ℤ → String → ℕ → Call
  disarms : Option ℤ → Call
  detects : ℤ → ℤ → String → ℕ → Call
  expires : ℕ → Call

pub step : StopState → Call → StopState × Decision
step s (arms turn_id generation phase expires_mono) = arm s turn_id generation phase expires_mono
step s (disarms generation) = disarm s generation
step s (detects turn_id generation phase now_mono) = detected s turn_id generation phase now_mono
step s (expires now_mono) = expire s now_mono

-- The generation that a call accepted, in front of those of the later calls.
abbrev pub note : Call → Action → List ℤ → List ℤ
note (detects t g p n) accept rest = g ∷ rest
note c a rest = rest

pub accepts : StopState → List Call → List ℤ
accepts s [] = []
accepts s (c ∷ cs) = note c (step s c).1.action (accepts (step s c).0 cs)
