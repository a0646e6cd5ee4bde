-- ===== src/Player/Turns.antt =====
-- What a voice turn leaves of the user's music (controller/em_player.py).
use echo_voice_satellite.Prelude.{
  ℕ, ◌≡◌, ◌≢◌, ◌↔◌, refl, subst, Bool, true, false, Option, none, some, List, [], ◌∷◌, ◌++◌, arith,
  All,
}
use echo_voice_satellite.Player.{
  idle, playing, Command, play, pause, resume, stop, Session, Effect, told, Device, full_lead,
  start_feed, halt, stop_session, play_session, pause_session, resume_session, carry_out, intent,
  user_command, interrupt, settle, resume_interrupted, feed_ends, new_session,
}

-- A session that nobody owns: it has a feed exactly while it plays, and media unless it is idle.
pub record IsFree (s : Session) : Type 0 where
  pub unowned : s.owned_by_turn ≡ false
  pub nothing_waits : s.pending ≡ none
  pub nothing_interrupted : s.resume_after ≡ false
  pub unducked : s.ducked ≡ false
  pub leads : s.lead ≡ full_lead
  pub feeds : (s.state ≡ playing) ↔ (s.feed ≢ none)
  pub has_media : s.state ≢ idle → s.url ≢ none

new_session-IsFree : IsFree new_session
new_session-IsFree = ground arith

pub carry_out-IsFree :
    (m : Bool) (s : Session) (c : Command) (played : ℕ)
    → IsFree s
    → IsFree (carry_out (some m) s c played).0
unfolding carry_out play_session pause_session resume_session stop_session halt start_feed
carry_out-IsFree m s (play url) played f = ground arith
carry_out-IsFree m s pause played f = ground arith
carry_out-IsFree m s resume played f = ground arith
carry_out-IsFree m s stop played f = ground arith

pub feed_ends-IsFree : (s : Session) → IsFree s → IsFree (feed_ends s).0
unfolding feed_ends
feed_ends-IsFree s f = ground arith

-- The user's commands, one after the other.
unfoldable pub commands : Device → Session → List Command → Session × List Effect
commands dev s [] = (s, [])
commands dev s (c ∷ cs) =
    let (s', es) = user_command dev s c 0 in let (s'', es') = commands dev s' cs in (s'', es ++ es')

-- The last of the commands, if there are any; else one that waited before them.
abbrev pub latest : Option Command → List Command → Option Command
latest before [] = before
latest before (c ∷ cs) = latest (some c) cs

-- A turn or an announcement: it takes the speaker, the user gives commands, it releases the speaker.
unfoldable pub turn : Device → Session → List Command → ℕ → ℕ → Session × List Effect
turn dev s cs before after =
    let (s1, es1) = interrupt dev s before in
    let (s2, es2) = commands dev s1 cs in
    let (s3, es3) = resume_interrupted dev s2 after in (s3, es1 ++ (es2 ++ es3))

abbrev pub IsTold : Effect → Type 0
IsTold (told p) = Unit
IsTold e = ⊥

pub owned_command :
    (dev : Device) (s : Session) (c : Command)
    → s.owned_by_turn ≡ true
    → user_command dev s c 0 ≡ (record s { pending = some c }, told (intent c) ∷ [])
unfolding user_command
owned_command dev s c o = ground arith

-- While the speaker is owned, commands change nothing but the one that waits, and reach Home Assistant only.
pub commands-owned :
    (dev : Device) (s : Session) (cs : List Command)
    → s.owned_by_turn ≡ true
    → ((commands dev s cs).0 ≡ record s { pending = latest s.pending cs })
      × All IsTold (commands dev s cs).1
unfolding commands
commands-owned dev s [] o = (refl, tt)
commands-owned dev s (c ∷ cs) o =
    let ih = commands-owned dev (record s { pending = some c }) cs o in
    rw (owned_command dev s c o) (ih.0, (tt, ih.1))

-- What the user asked for last, carried out at once.
abbrev pub at_once : Device → Session → Option Command → ℕ → Session
at_once dev s none played = s
at_once dev s (some c) played = (carry_out dev s c played).0

abbrev SameMusic : Session → Session → Type 0
SameMusic t d = (t.state ≡ d.state) × (t.url ≡ d.url) × IsFree t

settled :
    (m : Bool) (s : Session) (w : Option Command) (before after now : ℕ)
    → IsFree s
    → SameMusic
        (resume_interrupted
          (some m)
          (record (interrupt (some m) s before).0 { pending = w })
          after).0
        (at_once (some m) s w now)
unfolding interrupt resume_interrupted settle carry_out play_session pause_session resume_session
    stop_session halt start_feed
settled true s none before after now f = ground arith
settled false s none before after now f = ground arith
settled true s (some pause) before after now f = ground arith
settled false s (some pause) before after now f = ground arith
settled true s (some (play u)) before after now f = ground arith
settled false s (some (play u)) before after now f = ground arith
settled true s (some resume) before after now f = ground arith
settled false s (some resume) before after now f = ground arith
settled true s (some stop) before after now f = ground arith
settled false s (some stop) before after now f = ground arith

pub interrupt_takes :
    (m : Bool) (s : Session) (before : ℕ)
    → let t = (interrupt (some m) s before).0 in (t.owned_by_turn ≡ true) × (t.pending ≡ none)
unfolding interrupt pause_session halt
interrupt_takes m s before = ground arith

-- A turn is transparent: on a connected device, the music after it (state and media) is what it would be if
-- the user's last command during the turn had been carried out at once and there had been no turn, and the
-- music before it if there was no command; the session is then free again. No command of the turn reaches
-- the device before its end, but Home Assistant only. The session was free, and its media did not end
-- during the turn.
pub turn_transparent :
    (m : Bool) (s : Session) (cs : List Command) (before after now : ℕ)
    → IsFree s
    → let t = (turn (some m) s cs before after).0 in
      let d = at_once (some m) s (latest none cs) now in
      (t.state ≡ d.state)
      × (t.url ≡ d.url)
      × IsFree t
      × All IsTold (commands (some m) (interrupt (some m) s before).0 cs).1
unfolding turn
turn_transparent m s cs before after now f =
    let (o, w) = interrupt_takes m s before in
    let (e, quiet) = commands-owned (some m) (interrupt (some m) s before).0 cs o in
    let waits =
      subst
        (λ x.
          (commands (some m) (interrupt (some m) s before).0 cs).0
          ≡ record (interrupt (some m) s before).0 { pending = latest x cs })
        w e in
    let (a, b, c) = settled m s (latest none cs) before after now f in rw waits (a, b, c, quiet)
