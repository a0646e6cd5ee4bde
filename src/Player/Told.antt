-- ===== src/Player/Told.antt =====
-- What Home Assistant is told of the music across a turn (controller/em_player.py).
use echo_voice_satellite.Prelude.{
  ℕ, ◌≡◌, ◌↔◌, refl, subst, Bool, true, false, Option, none, some, List, [], ◌∷◌, ◌++◌, arith,
}
use echo_voice_satellite.Player.{
  Playback, idle, Command, play, pause, resume, stop, Session, Effect, told, duck, music_flush,
  speaker_flush, Device, reported_state, start_feed, halt, stop_session, play_session,
  pause_session, resume_session, intent, interrupt, settle, resume_interrupted,
}
use echo_voice_satellite.Player.Turns.{
  IsFree, commands, commands-owned, owned_command, interrupt_takes, latest, turn,
}

-- The last state that Home Assistant was told, after one that it had.
abbrev pub last_told : Playback → List Effect → Playback
last_told p [] = p
last_told p (told q ∷ es) = last_told q es
last_told p (duck b ∷ es) = last_told p es
last_told p (music_flush ∷ es) = last_told p es
last_told p (speaker_flush ∷ es) = last_told p es

last_told-append :
    (p : Playback) (es fs : List Effect) → last_told p (es ++ fs) ≡ last_told (last_told p es) fs
last_told-append p [] fs = refl
last_told-append p (told q ∷ es) fs = last_told-append q es fs
last_told-append p (duck b ∷ es) fs = last_told-append p es fs
last_told-append p (music_flush ∷ es) fs = last_told-append p es fs
last_told-append p (speaker_flush ∷ es) fs = last_told-append p es fs

abbrev pub wish : Option Command → Playback → Playback
wish none p = p
wish (some c) p = intent c

commands-told :
    (dev : Device) (s : Session) (cs : List Command) (w : Option Command) (p : Playback)
    → s.owned_by_turn ≡ true
    → last_told (wish w p) (commands dev s cs).1 ≡ wish (latest w cs) p
unfolding commands
commands-told dev s [] w p o = refl
commands-told dev s (c ∷ cs) w p o =
    rw (owned_command dev s c o) (commands-told dev (record s { pending = some c }) cs (some c) p o)

-- The commands of which Home Assistant is told what does not come about: to pause or resume nothing.
abbrev pub misleads : Playback → Option Command → Bool
misleads idle (some pause) = true
misleads idle (some resume) = true
misleads p c = false

settle-told :
    (m : Bool) (s : Session) (w : Option Command) (before after : ℕ)
    → IsFree s
    → let i = interrupt (some m) s before in
      let r = resume_interrupted (some m) (record i.0 { pending = w }) after in
      (last_told (wish w (last_told s.state i.1)) r.1 ≡ r.0.state) ↔ (misleads s.state w ≡ false)
unfolding interrupt resume_interrupted settle play_session pause_session resume_session stop_session
    halt start_feed reported_state
settle-told true s none before after f = (λ h. ground arith, λ h. ground arith)
settle-told false s none before after f = (λ h. ground arith, λ h. ground arith)
settle-told true s (some pause) before after f = (λ h. ground arith, λ h. ground arith)
settle-told false s (some pause) before after f = (λ h. ground arith, λ h. ground arith)
settle-told true s (some (play u)) before after f = (λ h. ground arith, λ h. ground arith)
settle-told false s (some (play u)) before after f = (λ h. ground arith, λ h. ground arith)
settle-told true s (some resume) before after f = (λ h. ground arith, λ h. ground arith)
settle-told false s (some resume) before after f = (λ h. ground arith, λ h. ground arith)
settle-told true s (some stop) before after f = (λ h. ground arith, λ h. ground arith)
settle-told false s (some stop) before after f = (λ h. ground arith, λ h. ground arith)

-- Home Assistant, which knew the state of a free session before a turn, was last told its state after it,
-- exactly unless the session was idle and the user's last command was to pause or to resume: that is told
-- as if it came about, and nothing takes it back.
pub turn-told :
    (m : Bool) (s : Session) (cs : List Command) (before after : ℕ)
    → IsFree s
    → let t = turn (some m) s cs before after in
      (last_told s.state t.1 ≡ t.0.state) ↔ (misleads s.state (latest none cs) ≡ false)
unfolding turn
turn-told m s cs before after f =
    let i = interrupt (some m) s before in
    let (o, w) = interrupt_takes m s before in
    let (e, quiet) = commands-owned (some m) i.0 cs o in
    let waits =
      subst (λ x. (commands (some m) i.0 cs).0 ≡ record i.0 { pending = latest x cs }) w e in
    let p = last_told s.state i.1 in
    let spoken = commands-told (some m) i.0 cs none p o in
    let spoke = (commands (some m) i.0 cs).1 in
    let last = (resume_interrupted (some m) (record i.0 { pending = latest none cs }) after).1 in
    rw (waits, last_told-append s.state i.1 (spoke ++ last), last_told-append p spoke last, spoken)
      (settle-told m s (latest none cs) before after f)
