-- ===== src/Arbiter/Voice.antt =====
-- The turns that requests start (controller/em_controller.py): the button's in handle_button_event, the loop of
-- `_run_voice_locked` as far as it works on the requests, and the callback `_clear_wake_task`; and the moves of a
-- device, in any order. A test turn (controller/em_turn_engine.py: start_device_test_turn) holds the lock for no
-- request.
use echo_voice_satellite.Prelude.{
  ℕ, String, Bool, true, false, not, Option, none, some, List, [], ◌∷◌, is_given, if◌then◌else◌,
  ◌==◌, string_eq, nat_eq,
}
use echo_voice_satellite.Prelude.Dict.{get, put, remove}
use echo_voice_satellite.Arbiter
use echo_voice_satellite.Arbiter.{release}
use echo_voice_satellite.Arbiter.Admission.{
  Stage, created, pressed, running, ended, VoiceRun, Wakes, is_task, cleared, send_deny,
  create_task, start_voice, Facts, receive, handle_wake_request,
}

-- `_clear_wake_task`
abbrev pub same_text : Option String → Option String → Bool
same_text none none = true
same_text (some a) (some b) = a == b
same_text _ _ = false

unfoldable pub clear_wake_task : ℕ → Wakes → Wakes
clear_wake_task t w =
    let w' = record w { tasks = remove t w.tasks } in
    if is_task w.wake_admission_task t
    then record w' {
      wake_admission_task = none;
      wake_request_id =
          if same_text w.barge_request_id w.wake_request_id then w.wake_request_id else none;
    }
    else w'

-- The button's press that starts a turn, when no turn runs
unfoldable pub press : String → Bool → Bool → Wakes → Wakes
press id stop_admissible has_data w =
    if id == ""
    then w
    else if is_given w.wake_request_id
    then send_deny "busy" id w
    else if not stop_admissible
    then send_deny "not_ready" id w
    else if not has_data
    then send_deny "no_data" id w
    else create_task (pressed id) (record w { wake_request_id = some id; oww_paused = true })

-- `_button_voice_turn`, whose turn is refused if the stop word is not ready any more
unfoldable pub start_button : ℕ → Bool → String → Wakes → Wakes
start_button t stop_admissible id w =
    if stop_admissible
    then start_voice t id w
    else record w { tasks = remove t w.tasks; wake_request_id = cleared w.wake_request_id id }

-- How `trigger_voice_turn` ends: with whether the conversation goes on, or with an exception.
pub data Round : Type 0 where
  returns : Bool → Round
  raises : Round

abbrev pub loop_cleared : Option String → Option String → Option String
loop_cleared tracked none = tracked
loop_cleared tracked (some id) = cleared tracked id

-- The `finally` of the task that waits for the turn
abbrev pub close_task : Option (ℕ × String) → Wakes → Wakes
close_task none w = w
close_task (some (t, id)) w = record w {
  wake_request_id = cleared w.wake_request_id id;
  tasks = put t ended w.tasks;
}

-- The end of `_run_voice_locked`
abbrev pub end_voice : Option (ℕ × String) → Wakes → Wakes
end_voice opener w =
    close_task opener
      (record w { voice = none; oww_paused = false; arbiter = release w.arbiter w.device_id })

abbrev pub next_round : VoiceRun → Bool → Wakes → Wakes
next_round v goes_on w = elim w.barge_request_id [
  | some id ↦ record w { barge_request_id = none; voice = some (record v { request_id = some id }) }
  | none ↦
      if goes_on
      then record w { voice = some (record v { request_id = none }) }
      else end_voice v.opener w
]

unfoldable pub round : VoiceRun → Round → Wakes → Wakes
round v raises w = end_voice v.opener w
round v (returns goes_on) w =
    next_round v goes_on
      (record w { wake_request_id = loop_cleared w.wake_request_id v.request_id })

-- What comes next: a message, a task that runs or whose callback does, a press, a test turn that gets the lock, the
-- end of a round of the turn, or what another device does to the arbiter.
pub data Move : Type 0 where
  receives : String → Bool → Move
  handles : ℕ → Facts → Move
  presses : String → Bool → Bool → Move
  starts : ℕ → Bool → Move
  tests : Move
  rounds : Round → Move
  calls_back : ℕ → Move
  hears : Arbiter.Event → Move

abbrev pub handle_stage : ℕ → Facts → Option Stage → Wakes → Wakes
handle_stage t f (some (created id)) w = handle_wake_request t f id w
handle_stage t f (some (pressed id)) w = w
handle_stage t f (some running) w = w
handle_stage t f (some ended) w = w
handle_stage t f none w = w

abbrev pub start_stage : ℕ → Bool → Option Stage → Wakes → Wakes
start_stage t b (some (pressed id)) w = if is_given w.voice then w else start_button t b id w
start_stage t b (some (created id)) w = w
start_stage t b (some running) w = w
start_stage t b (some ended) w = w
start_stage t b none w = w

abbrev pub clear_stage : ℕ → Option Stage → Wakes → Wakes
clear_stage t (some ended) w = clear_wake_task t w
clear_stage t (some (created id)) w = w
clear_stage t (some (pressed id)) w = w
clear_stage t (some running) w = w
clear_stage t none w = w

abbrev pub round_of : Option VoiceRun → Round → Wakes → Wakes
round_of none r w = w
round_of (some v) r w = round v r w

-- A press while a turn runs cancels it, and a button's turn waits for the lock.
unfoldable pub step : Wakes → Move → Wakes
step w (receives id barge) = receive id barge w
step w (handles t f) = handle_stage t f (get t w.tasks) w
step w (presses id ready connected) = if is_given w.voice then w else press id ready connected w
step w (starts t ready) = start_stage t ready (get t w.tasks) w
step w tests =
    if is_given w.voice
    then w
    else record w { voice = some (record { request_id = none; opener = none }); oww_paused = true }
step w (rounds r) = round_of w.voice r w
step w (calls_back t) = clear_stage t (get t w.tasks) w
step w (hears e) = record w { arbiter = (Arbiter.run w.arbiter (e ∷ [])).0 }

unfoldable pub steps : Wakes → List Move → Wakes
steps w [] = w
steps w (m ∷ ms) = steps (step w m) ms
