-- ===== src/Timers.antt =====
-- controller/em_timers.py: the timers and the finished alarms of one Echo. The texts that `json.dumps`
-- makes of a payload are a parameter; numbers of a payload are integers, and a missing one is 0.
pub mod Line
pub mod Sound
pub mod Queue
pub mod Cancelled
mod Tests
use echo_voice_satellite.Prelude.{
  ℕ, String, Bool, true, false, Option, none, some, List, [], ◌∷◌, ◌++◌, ◌&&◌, ◌||◌, not, length,
  select, any, elem, if◌then◌else◌, ◌==◌, nat_eq, string_eq,
}
use echo_voice_satellite.Prelude.Dict.{Dict, get, put, remove}
use echo_voice_satellite.Prelude.Int.{ℤ, pos}

pub record TimerRecord : Type 0 where
  pub timer_id : String
  pub name : Option String
  pub total_seconds : ℤ
  pub seconds_left : ℤ
  pub is_active : Bool
  pub ha_device_id : Option String
  pub received_at : Option ℕ

-- The payload's fields; `none` is a missing one, and for the id also one that is no text.
pub record Event : Type 0 where
  pub event : Option String
  pub timer_id : Option String
  pub name : Option String
  pub total_seconds : Option ℤ
  pub seconds_left : Option ℤ
  pub is_active : Option Bool
  pub ha_device_id : Option String

abbrev int_or_zero : Option ℤ → ℤ
int_or_zero none = pos 0
int_or_zero (some n) = n

abbrev flag_or_false : Option Bool → Bool
flag_or_false none = false
flag_or_false (some b) = b

-- `TimerRecord.from_payload`
abbrev pub from_payload : Event → String → Option ℕ → TimerRecord
from_payload e id received_at = record {
  timer_id = id;
  name = e.name;
  total_seconds = int_or_zero e.total_seconds;
  seconds_left = int_or_zero e.seconds_left;
  is_active = flag_or_false e.is_active;
  ha_device_id = e.ha_device_id;
  received_at = received_at;
}

pub data Kind : Type 0 where
  started updated cancelled finished : Kind

-- `LIFECYCLE_EVENTS`
unfoldable pub lifecycle : Option String → Option Kind
lifecycle none = none
lifecycle (some e) =
    if e == "started"
    then some started
    else if e == "updated"
    then some updated
    else if e == "cancelled"
    then some cancelled
    else if e == "finished"
    then some finished
    else none

pub record TimerTransition : Type 0 where
  pub accepted : Bool
  pub duplicate : Bool
  pub alarm_changed : Bool

pub record Session : Type 0 where
  pub running : Dict String TimerRecord
  pub current : Option TimerRecord
  pub queue : List TimerRecord
  pub last_payload : Dict String String
  pub cancelled_ids : List String

abbrev pub new_session : Session
new_session = record {
  running = [];
  current = none;
  queue = [];
  last_payload = [];
  cancelled_ids = [];
}

abbrev pub transition : Bool → Bool → Bool → TimerTransition
transition a d c = record { accepted = a; duplicate = d; alarm_changed = c }

abbrev pub names : String → TimerRecord → Bool
names id t = t.timer_id == id

-- `self.queue.pop(0) if self.queue else None`
abbrev pub pop : List TimerRecord → Option TimerRecord × List TimerRecord
pop [] = (none, [])
pop (t ∷ ts) = (some t, ts)

abbrev pub drop_current :
    Option TimerRecord → List TimerRecord → String → (Option TimerRecord × List TimerRecord) × Bool
drop_current none q id = ((none, q), false)
drop_current (some t) q id = if names id t then (pop q, true) else ((some t, q), false)

-- `_remove_finished`
pub remove_finished : Session → String → Session × Bool
remove_finished s id =
    let r = drop_current s.current s.queue id in
    let kept = select (λ t. not (names id t)) r.0.1 in
    (record s { current = r.0.0; queue = kept }, r.1 || not (length kept == length r.0.1))

-- The end of `apply` on a `finished` event, with the timer off the running ones.
pub ring : Option TimerRecord → Session → String → TimerRecord → Session × TimerTransition
ring none s id timer =
    if any (names id) s.queue
    then (s, transition true true false)
    else (record s { current = some timer }, transition true false true)
ring (some c) s id timer =
    if names id c
    then (s, transition true false false)
    else if any (names id) s.queue
    then (s, transition true true false)
    else (record s { queue = s.queue ++ timer ∷ [] }, transition true false true)

abbrev with_change : Session × Bool → Session × TimerTransition
with_change (s, changed) = (s, transition true false changed)

pub dispatch : Kind → Session → String → TimerRecord → Session × TimerTransition
unfolding remove_finished ring
dispatch cancelled s id timer = with_change (
    remove_finished
      (record s { cancelled_ids = id ∷ s.cancelled_ids; running = remove id s.running }) id)
dispatch finished s id timer = ring s.current (record s { running = remove id s.running }) id timer
dispatch _ s id timer =
    with_change (remove_finished (record s { running = put id timer s.running }) id)

abbrev pub is_cancelled : Kind → Bool
is_cancelled cancelled = true
is_cancelled k = false

abbrev pub is_last : Option String → String → Bool
is_last none f = false
is_last (some g) f = g == f

-- `apply` behind its first test, with the payload's fingerprint.
pub apply_known : Session → Kind → String → TimerRecord → String → Session × TimerTransition
unfolding dispatch
apply_known s kind id timer fingerprint =
    let s' = record s { last_payload = put id fingerprint s.last_payload } in
    if is_last (get id s.last_payload) fingerprint
    then (s, transition true true false)
    else if elem id s.cancelled_ids && not (is_cancelled kind)
    then (s', transition true true false)
    else dispatch kind s' id timer

-- the timer id, if it is a text that is not empty
abbrev pub id_of : Event → Option String
id_of e = elim e.timer_id [ none ↦ none | some id ↦ if id == "" then none else some id ]

module _ (dumps : Event → String) where
  pub apply : Session → Event → Option ℕ → Session × TimerTransition
  unfolding apply_known lifecycle
  apply s e now = elim (lifecycle e.event) [
    | none ↦ (s, transition false false false)
    | some kind ↦ elim (id_of e) [
      | none ↦ (s, transition false false false)
      | some id ↦ apply_known s kind id (from_payload e id now) (dumps e)
    ]
  ]

-- `dismiss_current`; `timeout_current` and `delivery_failed` are calls of it
unfoldable pub dismiss_current : Session → Session × Option TimerRecord
dismiss_current s = elim s.current [
  | none ↦ (s, none)
  | some t ↦ (record s { current = (pop s.queue).0; queue = (pop s.queue).1 }, some t)
]

abbrev pub line_of : Option TimerRecord → List TimerRecord → List TimerRecord
line_of none q = q
line_of (some t) q = t ∷ q

-- `dismiss_all`; `disconnect` is a call of it
unfoldable pub dismiss_all : Session → Session × List TimerRecord
dismiss_all s = (record s { current = none; queue = [] }, line_of s.current s.queue)

-- `snapshot()["state"]`
pub snapshot_state : Session → String
snapshot_state s = elim s.current [
  | some t ↦ "ringing"
  | none ↦ elim s.queue [ [] ↦ "idle" | t ∷ ts ↦ "queued" ]
]
