-- ===== src/Arbiter/Admission.antt =====
-- How a device's request for a turn is admitted (controller/em_controller.py): `_wake_request_admission_gate`, the
-- `wake_request` of handle_control, and `_handle_wake_request`. A handler runs in one step up to the turn that it
-- starts, and the check of the stop word with which `_run_voice_locked` begins is then the one that it has just made.
-- A connection that closes is not modelled, since it takes its device object with it; lights, logs, queues, the event
-- `cancel_event` and the record `last_wake` are left out. Scores are in ten-thousandths, times in milliseconds.
use echo_voice_satellite.Prelude.{
  ℕ, ◌+◌, String, Bool, true, false, not, ◌&&◌, Option, none, some, List, [], ◌∷◌, ◌++◌, is_given,
  if◌then◌else◌, ◌==◌, string_eq, nat_eq, ltb, leb,
}
use echo_voice_satellite.Prelude.Dict.{Dict, put}
use echo_voice_satellite.Prelude.Int.{ℤ, pos, negsuc}
use echo_voice_satellite.Arbiter.{WakeArbiter, claim, release, init}

-- The task of a request that came by `wake_request` or by the button, before it has run, while it runs its turn, and
-- when it has ended but its callback is still to come.
pub data Stage : Type 0 where
  created pressed : String → Stage
  running ended : Stage

-- The loop of `_run_voice_locked`, which holds `voice_lock`: its variable `request_id`, and the task that waits for
-- it with the request that this came for, unless it is the test turn.
pub record VoiceRun : Type 0 where
  pub request_id : Option String
  pub opener : Option (ℕ × String)

-- The fields of a device that admission works on, its tasks, the arbiter, and the denials that were sent.
-- `barge_request_id` is given exactly when `barge_detected` is set: the code sets and clears them together.
pub record Wakes : Type 0 where
  pub device_id : String
  pub wake_request_id : Option String
  pub barge_request_id : Option String
  pub wake_admission_task : Option ℕ
  pub oww_paused : Bool
  pub voice : Option VoiceRun
  pub next_task : ℕ
  pub tasks : Dict ℕ Stage
  pub arbiter : WakeArbiter
  pub sent : List (String × String)

abbrev pub new_wakes : String → Wakes
new_wakes device_id = record {
  device_id = device_id;
  wake_request_id = none;
  barge_request_id = none;
  wake_admission_task = none;
  oww_paused = false;
  voice = none;
  next_task = 0;
  tasks = [];
  arbiter = init;
  sent = [];
}

abbrev pub is_text : Option String → String → Bool
is_text none id = false
is_text (some s) id = s == id

abbrev pub is_task : Option ℕ → ℕ → Bool
is_task none t = false
is_task (some u) t = u == t

-- `if device.wake_request_id == request_id: device.wake_request_id = None`
abbrev pub cleared : Option String → String → Option String
cleared tracked id = if is_text tracked id then none else tracked

abbrev pub send_deny : String → String → Wakes → Wakes
send_deny reason id w = record w { sent = w.sent ++ (id, reason) ∷ [] }

-- `deny` of `_handle_wake_request`
abbrev pub deny : String → String → Wakes → Wakes
deny reason id w = record w {
  sent = w.sent ++ (id, reason) ∷ [];
  wake_request_id = cleared w.wake_request_id id;
}

abbrev pub gate : Bool → Wakes → Option String
gate barge_in_enabled w =
    if is_given w.voice
    then (if barge_in_enabled then none else some "barge_disabled")
    else if is_given w.wake_request_id
    then some "busy"
    else none

abbrev pub create_task : Stage → Wakes → Wakes
create_task stage w = record w {
  tasks = put w.next_task stage w.tasks;
  next_task = w.next_task + 1;
}

-- The message `wake_request`; an id that is missing or empty is passed over.
unfoldable pub receive : String → Bool → Wakes → Wakes
receive id barge_in_enabled w = if id == "" then w else elim (gate barge_in_enabled w) [
  | some reason ↦ send_deny reason id w
  | none ↦
      create_task (created id)
        (record w { wake_request_id = some id; wake_admission_task = some w.next_task })
]

pub record Numbers : Type 0 where
  pub score : ℤ
  pub threshold : ℤ
  pub age_ms : ℤ
  pub activation_seq : ℤ

-- What the handler reads of the message, whose numbers may not parse, and of the device when it runs; `granted` is
-- what `admit_barge` answers, a denial with its reason if it is none.
pub record Facts : Type 0 where
  pub capable : Bool
  pub of_model : Bool
  pub model_ready : Bool
  pub muted : Bool
  pub has_data : Bool
  pub numbers : Option Numbers
  pub barge_in_enabled : Bool
  pub barge_denied : Option String
  pub stop_admissible : Bool
  pub wake_arb_ms : ℕ
  pub several : Bool
  pub now : ℕ
  pub connected : Bool

abbrev within : ℕ → ℤ → Bool
within high (pos n) = leb n high
within high (negsuc n) = false

abbrev reaches : ℤ → ℤ → Bool
reaches (pos s) (pos t) = leb t s
reaches _ _ = false

abbrev number_reason : Option Numbers → Option String
number_reason none = some "malformed"
number_reason (some n) =
    if not (
      (within 10000 n.score && within 10000 n.threshold)
      && (within 10000 n.age_ms && (within 65535 n.activation_seq && reaches n.score n.threshold)))
    then some "malformed"
    else if not (within 4000 n.age_ms)
    then some "stale"
    else none

-- The checks of `_handle_wake_request` before it looks at the lock
unfoldable pub refusal : Facts → Bool → Option String
refusal f is_tracked =
    if not f.capable
    then some "unsupported"
    else if not is_tracked
    then some "busy"
    else if not (f.of_model && f.model_ready)
    then some "not_ready"
    else if f.muted
    then some "muted"
    else if not f.has_data
    then some "no_data"
    else number_reason f.numbers

abbrev pub set_task : ℕ → Stage → Wakes → Wakes
set_task t stage w = record w { tasks = put t stage w.tasks }

-- The registry denies a barge by itself, and leaves the request to the callback.
abbrev pub handle_barge : Facts → String → Wakes → Wakes
handle_barge f id w =
    if not f.barge_in_enabled then deny "barge_disabled" id w else elim f.barge_denied [
      | some reason ↦ send_deny reason id w
      | none ↦ record w { barge_request_id = some id }
    ]

abbrev pub start_voice : ℕ → String → Wakes → Wakes
start_voice t id w = record w {
  oww_paused = true;
  voice = some (record { request_id = some id; opener = some (t, id) });
  tasks = put t running w.tasks;
}

-- The claim, of which only a claim that was made is released.
abbrev arbitrate : Facts → Wakes → WakeArbiter × String
arbitrate f w =
    if ltb 0 f.wake_arb_ms && f.several
    then claim w.arbiter w.device_id f.wake_arb_ms f.now
    else (w.arbiter, w.device_id)

-- The device that won runs its turn if it is still the registered one.
abbrev pub after_claim : ℕ → Facts → String → WakeArbiter × String → Wakes → Wakes
after_claim t f id (arbiter, winner) w =
    if not (winner == w.device_id)
    then set_task t ended (record (deny "arbitration" id w) { wake_request_id = none })
    else if not f.connected
    then set_task t ended (record (deny "disconnected" id w) {
      oww_paused = false;
      arbiter = if ltb 0 f.wake_arb_ms && f.several then release arbiter w.device_id else arbiter;
    })
    else start_voice t id (record w { arbiter = arbiter })

abbrev pub handle_idle : ℕ → Facts → String → Wakes → Wakes
handle_idle t f id w =
    if not f.stop_admissible
    then set_task t ended (deny "not_ready" id w)
    else after_claim t f id (arbitrate f w) w

unfoldable pub handle_wake_request : ℕ → Facts → String → Wakes → Wakes
unfolding refusal
handle_wake_request t f id w = elim (refusal f (is_text w.wake_request_id id)) [
  | some reason ↦ set_task t ended (deny reason id w)
  | none ↦ if is_given w.voice then set_task t ended (handle_barge f id w) else handle_idle t f id w
]
