-- ===== src/Sendspin/Connection.antt =====
-- `SendspinRuntime._connection_loop` of controller/em_sendspin.py: the task that keeps a session connected to
-- its server, as a machine whose steps go from one place where it can be made to wait to the next. Delays are
-- seconds; what the runtime publishes of the session's state is not modelled.
pub mod Backoff
use echo_voice_satellite.Prelude.{
  ℕ, ◌*◌, Bool, true, false, List, [], ◌∷◌, not, ◌&&◌, ◌||◌, min, if◌then◌else◌, ◌≡◌, refl, All,
  arith, Bool-cases, List-cases, inl, inr, none, some,
}
use echo_voice_satellite.Sendspin.{
  Session, Event, starts, clears, ends, disconnects, yields, releases, hears, writes, on_event,
  on_stream_start, on_stream_clear, on_stream_end, on_disconnect, release_legacy, on_audio, write,
  enqueue,
}

-- At the head of the loop, in `_rearm.wait()`, in `connect`, in `disconnected.wait()`, in the sleep, at the end.
pub data Point : Type 0 where
  heads rearms connects listens sleeps ended : Point

-- The session, with whether it is closed and whether the runtime still knows it.
pub record Loop : Type 0 where
  pub session : Session
  pub closed : Bool
  pub registered : Bool
  pub point : Point
  pub delay : ℕ

abbrev pub at_head : Loop → Loop
at_head l =
    if l.closed || not l.registered
    then record l { point = ended }
    else if l.session.legacy_owns
    then record l { session = record l.session { rearm = false }; point = rearms }
    else record l { session = record l.session { disconnected = false }; point = connects }

-- behind an attempt that failed, or a connection that ended
abbrev pub afterwards : Loop → Loop
afterwards l =
    if not l.closed && not l.session.legacy_owns
    then record l { point = sleeps }
    else record l { point = heads }

-- The argument is whether the attempt to connect succeeds. A wait for what has not come does nothing.
pub step_at : Point → Bool → Loop → Loop
step_at heads ok l = at_head l
step_at rearms ok l = if l.session.rearm then record l { point = heads; delay = 1 } else l
step_at connects ok l = if ok then record l { point = listens; delay = 1 } else afterwards l
step_at listens ok l = if l.session.disconnected then afterwards l else l
step_at sleeps ok l = record l { point = heads; delay = min (l.delay * 2) 30 }
step_at ended ok l = l

unfoldable pub step : Bool → Loop → Loop
unfolding step_at
step ok l = step_at l.point ok l

-- A step of the loop, or an event of the session.
pub data Move : Type 0 where
  steps : Bool → Move
  event : Event → Move

unfoldable pub move : Move → Loop → Loop
move (steps ok) l = step ok l
move (event e) l = record l { session = (on_event e l.session).0 }

unfoldable pub moves : List Move → Loop → Loop
moves [] l = l
moves (m ∷ ms) l = moves ms (move m l)

abbrev pub is_yield : Move → Bool
is_yield (event yields) = true
is_yield _ = false

-- The loop waits to be re-armed, and nobody who could do so owns the music.
pub record IsForgotten (l : Loop) : Type 0 where
  pub waits : l.point ≡ rearms
  pub unarmed : l.session.rearm ≡ false
  pub unowned : l.session.legacy_owns ≡ false

move-IsForgotten :
    (m : Move) (l : Loop) → is_yield m ≡ false → IsForgotten l → IsForgotten (move m l)
unfolding move step step_at on_event on_stream_start on_stream_clear on_stream_end on_disconnect
    release_legacy on_audio write enqueue
move-IsForgotten (steps ok) l n h =
    rw (h.waits, h.unarmed, step, move, step_at)
      (record { waits = refl; unarmed = refl; unowned = h.unowned })
move-IsForgotten (event (starts b)) l n h = ground arith
move-IsForgotten (event (clears roles)) l n h = ground arith
move-IsForgotten (event (ends roles)) l n h = ground arith
move-IsForgotten (event disconnects) l n h = ground arith
move-IsForgotten (event yields) l n h = cc
move-IsForgotten (event releases) l n h = ground arith
move-IsForgotten (event (hears ok none bytes)) l n h = ground arith
move-IsForgotten (event (hears ok (some us) bytes)) l n h = ground arith
move-IsForgotten (event (writes encodes)) l n h = elim (List-cases l.session.queue) [
  | inl q ↦ ground (arith, q)
  | inr (i, is, q) ↦ ground (arith, q)
]
