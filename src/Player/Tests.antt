-- ===== src/Player/Tests.antt =====
-- The laws of `Player` at a concrete session.
use echo_voice_satellite.Prelude.{◌≡◌, ◌↔◌, false, none, some, List, [], ◌∷◌, All, arith}
use echo_voice_satellite.Player.{Session, Command, play, pause, playing, full_lead, interrupt}
use echo_voice_satellite.Player.Pacing.{Pace, Chunk}
use echo_voice_satellite.Player.Told.{last_told, misleads, turn-told}
use echo_voice_satellite.Player.Turns.{
  IsFree, turn, commands, latest, at_once, IsTold, turn_transparent,
}

abbrev radio : Session
radio = record {
  state = playing;
  url = some "http://radio";
  owned_by_turn = false;
  pending = none;
  resume_after = false;
  ducked = false;
  lead = full_lead;
  pos = 0;
  feed = some (record { start_pos = 0 });
  seekable = false;
}

radio-IsFree : IsFree radio
radio-IsFree = ground arith

-- "Play some jazz ... actually, pause", to a device that does not mix.
abbrev wishes : List Command
wishes = play "http://jazz" ∷ pause ∷ []

turn_transparent_example :
    let t = (turn (some false) radio wishes 9000 0).0 in
    let d = at_once (some false) radio (latest none wishes) 9000 in
    (t.state ≡ d.state)
    × (t.url ≡ d.url)
    × IsFree t
    × All IsTold (commands (some false) (interrupt (some false) radio 9000).0 wishes).1
turn_transparent_example = turn_transparent false radio wishes 9000 0 9000 radio-IsFree

turn-told_example :
    let t = turn (some false) radio wishes 9000 0 in
    (last_told radio.state t.1 ≡ t.0.state) ↔ (misleads radio.state (latest none wishes) ≡ false)
turn-told_example = turn-told false radio wishes 9000 0 radio-IsFree

-- A feed that is 4 s ahead when a turn lowers its lead to 1 s.
abbrev far_ahead : Pace
far_ahead = record { now = 0; sent = 384000 }

abbrev chunks : List Chunk
chunks =
    record { read = 500; lead = 96000; oversleep = 40 }
    ∷ record { read = 90; lead = 96000; oversleep = 0 }
    ∷ []
