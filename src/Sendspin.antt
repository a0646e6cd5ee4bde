-- ===== src/Sendspin.antt =====
-- controller/em_sendspin.py: `SendspinDeviceSession`, which puts the timestamped audio of a synchronised
-- group onto one Echo's link, with the queue that its writer empties. The SDK's clock and the encoders are
-- arguments of the operations that call them.
pub mod Sync
pub mod Handover
pub mod Numbers
pub mod Connection
mod Tests
use echo_voice_satellite.Prelude.{
  ℕ, ◌+◌, ◌%◌, ◌^◌, String, Bool, true, false, Option, none, some, List, [], ◌∷◌, ◌++◌, ◌&&◌, ◌||◌,
  not, length, elem, ltb, if◌then◌else◌, ◌==◌, nat_eq, string_eq,
}

-- The work items of the queue: a generation, and for audio its number, its time on the device and its bytes.
pub data Item : Type 0 where
  start : ℕ → Item
  clear : ℕ → Item
  finish : ℕ → Item
  pcm : ℕ → ℕ → ℕ → List ℕ → Item

pub record Session : Type 0 where
  pub has_eq : Bool
  pub queue : List Item
  pub disconnected : Bool
  pub generation : ℕ
  pub sequence : ℕ
  pub dropped_frames : ℕ
  pub rejected_frames : ℕ
  pub legacy_owns : Bool
  pub rearm : Bool

abbrev pub new_session : Session
new_session = record {
  has_eq = false;
  queue = [];
  disconnected = false;
  generation = 0;
  sequence = 0;
  dropped_frames = 0;
  rejected_frames = 0;
  legacy_owns = false;
  rearm = false;
}

abbrev pub max_queue : ℕ
max_queue = 256

abbrev pub next_word : ℕ → ℕ
next_word n = (n + 1) % 2 ^ 32

unfoldable pub enqueue : Session → Item → Session
enqueue s i =
    if ltb (length s.queue) max_queue
    then record s { queue = s.queue ++ i ∷ [] }
    else record s { dropped_frames = s.dropped_frames + 1 }

abbrev pub discard_queued : Session → Session
discard_queued s = record s { queue = [] }

abbrev pub next_generation : ℕ → ℕ
next_generation g = if next_word g == 0 then 1 else next_word g

-- The argument is whether the chain of filters can be built.
unfoldable pub on_stream_start : Bool → Session → Session
on_stream_start builds s =
    let g = next_generation s.generation in
    enqueue
      (discard_queued
        (record s { has_eq = builds; legacy_owns = false; generation = g; sequence = 0 }))
      (start g)

-- The roles that a message names, if it names any.
abbrev pub Roles : Type 0
Roles = Option (List String)

abbrev pub for_player : Roles → Bool
for_player none = true
for_player (some rs) = elem "player" rs

unfoldable pub on_stream_clear : Roles → Session → Session
on_stream_clear roles s =
    if not (for_player roles) || s.generation == 0
    then s
    else enqueue (discard_queued (record s { sequence = 0 })) (clear s.generation)

unfoldable pub on_stream_end : Roles → Session → Session
on_stream_end roles s =
    let s' : Session = record s { has_eq = false } in
    if not (for_player roles)
    then s
    else if s.generation == 0
    then s'
    else enqueue s' (finish s.generation)

unfoldable pub on_disconnect : Session → Session
on_disconnect s =
    let s' : Session = record s { has_eq = false; disconnected = true } in
    if s.legacy_owns then s' else discard_queued s'

-- `yield_to_legacy`, up to the disconnection that it then asks the SDK for
unfoldable pub yield_to_legacy : Session → Session
yield_to_legacy s =
    let g = s.generation in
    let s' : Session = record s { legacy_owns = true; has_eq = false } in
    if s.legacy_owns
    then s
    else if g == 0
    then s'
    else enqueue (enqueue (discard_queued s') (clear g)) (finish g)

unfoldable pub release_legacy : Session → Session
release_legacy s = if s.legacy_owns then record s { legacy_owns = false; rearm = true } else s

-- A chunk of audio: whether the clock is synchronised, and the time on the device that the SDK and the clock
-- make of its time stamp, none when that raises.
unfoldable pub on_audio : Bool → Option ℕ → List ℕ → Session → Session
on_audio synchronized target bytes s =
    let refused : Session = record s { rejected_frames = s.rejected_frames + 1 } in
    if s.generation == 0 || not synchronized || s.legacy_owns then refused else elim target [
      | none ↦ refused
      | some us ↦
          enqueue (record s { sequence = next_word s.sequence })
            (pcm s.generation s.sequence us bytes)
    ]

-- What the writer sends: an item, and whether its audio went through the filters.
abbrev pub Sent : Type 0
Sent = Item × Bool

abbrev is_pcm : Item → Bool
is_pcm (pcm g n us bytes) = true
is_pcm _ = false

-- One round of the writer; the argument is whether the encoder takes the frame, which it does of a control
-- item always.
unfoldable pub write : Bool → Session → Session × List Sent
write encodes s = elim s.queue [
  | [] ↦ (s, [])
  | i ∷ is ↦
      if is_pcm i && not encodes
      then (record s { queue = is; rejected_frames = s.rejected_frames + 1 }, [])
      else (record s { queue = is }, (i, is_pcm i && s.has_eq) ∷ [])
]

-- What can happen to a session.
pub data Event : Type 0 where
  starts : Bool → Event
  clears : Roles → Event
  ends : Roles → Event
  disconnects : Event
  yields : Event
  releases : Event
  hears : Bool → Option ℕ → List ℕ → Event
  writes : Bool → Event

unfoldable pub on_event : Event → Session → Session × List Sent
on_event (starts builds) s = (on_stream_start builds s, [])
on_event (clears roles) s = (on_stream_clear roles s, [])
on_event (ends roles) s = (on_stream_end roles s, [])
on_event disconnects s = (on_disconnect s, [])
on_event yields s = (yield_to_legacy s, [])
on_event releases s = (release_legacy s, [])
on_event (hears ok target bytes) s = (on_audio ok target bytes s, [])
on_event (writes encodes) s = write encodes s

unfoldable pub run : List Event → Session → Session × List Sent
run [] s = (s, [])
run (e ∷ es) s =
    let (s', sent) = on_event e s in let (s'', later) = run es s' in (s'', sent ++ later)
