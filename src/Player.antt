-- ===== src/Player.antt =====
-- controller/em_player.py: the media session of one Echo, what the user asks of it, and the voice turns and
-- announcements that own the speaker meanwhile. Positions are milliseconds. A feed is the task that streams
-- a decoder's audio; a session without one has no task or a finished one.
pub mod Turns
pub mod Told
pub mod Pacing
mod Tests
use echo_voice_satellite.Prelude.{
  ℕ, ◌+◌, ◌-◌, String, Bool, true, false, Option, none, some, List, [], ◌∷◌, ◌++◌, ◌&&◌, not, ltb,
  if◌then◌else◌, string_eq,
}
use echo_voice_satellite.Prelude.Dict.{Dict, get, put, remove}

pub data Playback : Type 0 where
  idle playing paused : Playback

pub data Command : Type 0 where
  play : String → Command
  pause : Command
  resume : Command
  stop : Command

-- A feed that plays: where in the media it started.
pub record Feed : Type 0 where
  pub start_pos : ℕ

pub record Session : Type 0 where
  pub state : Playback
  pub url : Option String
  pub owned_by_turn : Bool
  pub pending : Option Command
  pub resume_after : Bool
  pub ducked : Bool
  pub lead : ℕ
  pub pos : ℕ
  pub feed : Option Feed
  pub seekable : Bool

-- 4.0 s, 1.0 s, 1.0 s and 0.5 s
abbrev pub full_lead : ℕ
full_lead = 4000

abbrev pub turn_lead : ℕ
turn_lead = 1000

abbrev pub resume_rewind : ℕ
resume_rewind = 1000

abbrev pub least_seek : ℕ
least_seek = 500

abbrev pub new_session : Session
new_session = record {
  state = idle;
  url = none;
  owned_by_turn = false;
  pending = none;
  resume_after = false;
  ducked = false;
  lead = full_lead;
  pos = 0;
  feed = none;
  seekable = true;
}

-- What is sent to the device and to Home Assistant.
pub data Effect : Type 0 where
  music_flush speaker_flush : Effect
  duck : Bool → Effect
  told : Playback → Effect

-- `_get_device(device_id)`: a connected device, by whether it mixes.
abbrev pub Device : Type 0
Device = Option Bool

abbrev pub mixes : Device → Bool
mixes none = false
mixes (some m) = m

abbrev pub is_playing : Playback → Bool
is_playing playing = true
is_playing _ = false

abbrev pub is_none : Option Command → Bool
is_none none = true
is_none (some c) = false

-- `reported_state`, of a session that there is
pub reported_state : Session → Playback
reported_state s =
    if s.owned_by_turn && s.resume_after && is_none s.pending then playing else s.state

abbrev pub push_state : Session → Session × List Effect
push_state s = (s, told (reported_state s) ∷ [])

-- The start of a feed. One that finds no device ends at once; a position that the stream cannot seek to is
-- given up for the live edge.
abbrev pub start_at : Session → ℕ
start_at s = if ltb least_seek s.pos && not s.seekable then 0 else s.pos

abbrev pub feed_from : Session → ℕ → Session
feed_from s from = record s {
  state = playing;
  pos = from;
  feed = some (record { start_pos = from });
}

pub start_feed : Device → Session → Session × List Effect
start_feed none s = push_state (record s { state = idle; feed = none })
start_feed (some m) s = push_state (feed_from s (start_at s))

abbrev flush : Device → List Effect
flush none = []
flush (some m) = (if m then music_flush else speaker_flush) ∷ []

-- `_halt`: a feed is flushed and cancelled; what it has played, by then, is its bookmark.
pub halt : Device → Session → ℕ → Session × List Effect
halt dev s played = elim s.feed [
  | none ↦ (s, [])
  | some f ↦ (record s { feed = none; pos = f.start_pos + played - resume_rewind }, flush dev)
]

abbrev stopped : Session → Session
stopped s = record s { state = idle; url = none; pos = 0; resume_after = false }

abbrev is_active : Playback → Bool
is_active idle = false
is_active _ = true

pub stop_session : Device → Session → ℕ → Session × List Effect
stop_session dev s played =
    let (s', es) = halt dev s played in
    let s2 : Session = stopped s' in
    (s2, es ++ (if is_active s.state then told (reported_state s2) ∷ [] else []))

pub play_session : Device → Session → String → ℕ → Session × List Effect
play_session dev s url played =
    let (s', es) = stop_session dev s played in
    let (s2, es') = start_feed dev (record s' { url = some url; pos = 0; seekable = true }) in
    (s2, es ++ es')

pub pause_session : Device → Session → ℕ → Session × List Effect
pause_session dev s played =
    let (s', es) = halt dev s played in
    let s2 : Session = record s' { state = paused } in
    if is_playing s.state then (s2, es ++ told (reported_state s2) ∷ []) else (s, [])

pub resume_session : Device → Session → Session × List Effect
resume_session dev s = elim s.state [
  | paused ↦ elim s.url [ none ↦ (s, []) | some u ↦ start_feed dev s ]
  | _ ↦ (s, [])
]

-- A command, put on the wire.
pub carry_out : Device → Session → Command → ℕ → Session × List Effect
carry_out dev s (play url) played = play_session dev s url played
carry_out dev s pause played = pause_session dev s played
carry_out dev s resume played = resume_session dev s
carry_out dev s stop played = stop_session dev s played

-- The state that a command asks for.
abbrev pub intent : Command → Playback
intent (play url) = playing
intent pause = paused
intent resume = playing
intent stop = idle

-- `play`, `pause`, `resume` and `stop` of the module: the user's commands
pub user_command : Device → Session → Command → ℕ → Session × List Effect
user_command dev s c played =
    let now = carry_out dev s c played in
    if s.owned_by_turn then (record s { pending = some c }, told (intent c) ∷ []) else now

-- `interrupt`: a voice turn or an announcement takes the speaker.
pub interrupt : Device → Session → ℕ → Session × List Effect
interrupt dev s played =
    let s1 : Session = record s { owned_by_turn = true; pending = none } in
    let pausing = pause_session dev (record s1 { resume_after = true }) played in
    if mixes dev
    then (record s1 { ducked = true; lead = turn_lead }, duck true ∷ [])
    else if is_playing s.state
    then pausing
    else (s1, [])

abbrev unduck : Device → Bool → List Effect
unduck none b = []
unduck (some m) b = if b then duck false ∷ [] else []

-- What is done with a command that waited for the end of the turn.
pub settle : Device → Session → Bool → Bool → Option Command → ℕ → Session × List Effect
settle dev s ducked resume_after (some pause) played =
    let pausing = pause_session dev s played in if ducked then pausing else (s, [])
settle dev s ducked resume_after (some (play url)) played = play_session dev s url played
settle dev s ducked resume_after (some resume) played = resume_session dev s
settle dev s ducked resume_after (some stop) played = stop_session dev s played
settle dev s ducked resume_after none played =
    let resuming = resume_session dev s in if resume_after then resuming else (s, [])

abbrev pub released : Session → Session
released s = record s {
  owned_by_turn = false;
  pending = none;
  resume_after = false;
  ducked = false;
  lead = full_lead;
}

pub resume_interrupted : Device → Session → ℕ → Session × List Effect
resume_interrupted dev s played =
    let (s', es) = settle dev (released s) s.ducked s.resume_after s.pending played in
    (s', unduck dev s.ducked ++ es)

-- The feed comes to the end of its media, or to a source that is dead.
pub feed_ends : Session → Session × List Effect
feed_ends s = elim s.feed [
  | none ↦ (s, [])
  | some f ↦ push_state (record s { state = idle; url = none; pos = 0; feed = none })
]

-- `_sessions`, and the calls by device id
abbrev pub Sessions : Type 0
Sessions = Dict String Session

pub session_of : Sessions → String → Session
session_of m id = elim (get id m) [ none ↦ new_session | some s ↦ s ]

pub state_of : Sessions → String → Playback
state_of m id = elim (get id m) [ none ↦ idle | some s ↦ s.state ]

pub device_gone : Sessions → String → Sessions
device_gone m id = remove id m
