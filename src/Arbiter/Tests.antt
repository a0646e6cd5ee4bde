-- ===== src/Arbiter/Tests.antt =====
-- The laws of `Arbiter` and of the admission at concrete wakes.
use echo_voice_satellite.Prelude.{
  ◌+◌, ◌≤◌, String, ◌≡◌, ◌≢◌, ◌↔◌, ◌⊎◌, refl, true, false, none, some, List, [], ◌∷◌, ◌++◌, arith,
  eq_iff, All, string_eq, nat_eq,
}
use echo_voice_satellite.Arbiter.{WakeArbiter, claim, Event, claims, releases, run}
use echo_voice_satellite.Arbiter.Laws.{LosesTo, claim_wins, run-LosesTo}
use echo_voice_satellite.Prelude.Dict.{get, put, remove}
use echo_voice_satellite.Prelude.Int.{pos}
use echo_voice_satellite.Arbiter.Admission.{
  running, Wakes, new_wakes, VoiceRun, Facts, receive, refusal, handle_wake_request,
}
use echo_voice_satellite.Arbiter.Voice.{
  Move, receives, handles, presses, rounds, calls_back, returns, raises, clear_wake_task, round,
  step, steps,
}
use echo_voice_satellite.Arbiter.Rest.{AtRest, steps-AtRest}
use echo_voice_satellite.Arbiter.Barge.{steps-Stuck, steps-barge}

abbrev held : WakeArbiter
held = record { winner = some "office"; claimed_at = 100 }

claim_wins_example :
    ((claim held "lounge" 500 200).1 ≡ "lounge")
    ↔ ((◌≡◌ {A = String} "office" "lounge") ⊎ (held.claimed_at + 500 ≤ 200))
claim_wins_example = claim_wins held "lounge" "office" 500 200 refl

other_room : ◌≢◌ {A = String} "office" "lounge"
other_room = ground (arith, eq_iff "office" "lounge")

abbrev wakes : List Event
wakes = claims "lounge" 500 200 ∷ releases "lounge" ∷ claims "lounge" 500 599 ∷ []

run-LosesTo_example : let r = run held wakes in All (LosesTo "office") r.1 × (r.0 ≡ held)
run-LosesTo_example =
    run-LosesTo "office" 100 wakes
      (other_room, omega arith, (other_room, (other_room, omega arith, tt)))

abbrev good : Facts
good = record {
  capable = true;
  of_model = true;
  model_ready = true;
  muted = false;
  has_data = true;
  numbers =
      some (record {
        score = pos 9000;
        threshold = pos 5000;
        age_ms = pos 120;
        activation_seq = pos 3;
      });
  barge_in_enabled = true;
  barge_denied = none;
  stop_admissible = true;
  wake_arb_ms = 500;
  several = true;
  now = 1000;
  connected = true;
}

-- A wake, and a barge during its turn, which ends.
abbrev barge_moves : List Move
barge_moves =
    receives "r1" true
    ∷ handles 0 good
    ∷ receives "r2" true
    ∷ handles 1 good
    ∷ calls_back 1
    ∷ rounds (returns false)
    ∷ []

abbrev smooth_moves : List Move
smooth_moves = barge_moves ++ rounds (returns false) ∷ calls_back 0 ∷ []

smooth-AtRest : AtRest (steps (new_wakes "kitchen") smooth_moves)
unfolding steps step receive handle_wake_request refusal clear_wake_task round get put remove claim
smooth-AtRest = record { silent = refl; idle = refl }

steps-AtRest_example :
    let w = steps (new_wakes "kitchen") smooth_moves in
    (w.wake_request_id ≡ none) × (w.oww_paused ≡ false)
steps-AtRest_example = steps-AtRest "kitchen" smooth_moves (omega arith) smooth-AtRest

abbrev interrupted : Wakes
interrupted = steps (new_wakes "kitchen") barge_moves

abbrev second_turn : VoiceRun
second_turn = record { request_id = some "r2"; opener = some (0, "r1") }

interrupted-turn :
    (interrupted.voice ≡ some second_turn)
    × (interrupted.tasks ≡ (0, running) ∷ [])
    × (interrupted.wake_request_id ≡ some "r2")
    × (interrupted.wake_admission_task ≡ none)
unfolding steps step receive handle_wake_request refusal clear_wake_task round get put remove claim
interrupted-turn = (refl, refl, refl, refl)

abbrev later : List Move
later = receives "r3" true ∷ presses "b1" true true ∷ []

steps-Stuck_example :
    let w = steps interrupted (rounds raises ∷ calls_back 0 ∷ later) in
    (w.wake_request_id ≡ some "r2")
    × (w.voice ≡ none)
    × (w.tasks ≡ [])
    × (w.sent ≡ interrupted.sent ++ ("r3", "busy") ∷ ("b1", "busy") ∷ [])
steps-Stuck_example =
    steps-Stuck interrupted second_turn 0 "r1" "r2" later interrupted-turn.0 refl interrupted-turn.1
      interrupted-turn.2 interrupted-turn.3 refl (tt, (tt, tt))

abbrev talking : VoiceRun
talking = record { request_id = some "r1"; opener = some (0, "r1") }

abbrev speaking : Wakes
speaking = record (new_wakes "kitchen") { voice = some talking; wake_request_id = some "r1" }

passes : refusal good true ≡ none
unfolding refusal
passes = refl

steps-barge_example :
    let w = steps speaking (receives "r2" true ∷ handles 0 good ∷ rounds (returns false) ∷ []) in
    (w.voice ≡ some (record talking { request_id = some "r2" }))
    × (w.barge_request_id ≡ none)
    × (w.sent ≡ [])
steps-barge_example = steps-barge speaking talking "r2" good false refl refl passes refl refl
