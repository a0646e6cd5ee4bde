-- ===== src/Sendspin/Tests.antt =====
-- The laws of `Sendspin` at concrete sessions.
use echo_voice_satellite.Prelude.{
  ◌≤◌, ◌≡◌, refl, min, true, false, some, List, [], ◌∷◌, ◌++◌, map, arith,
}
use echo_voice_satellite.Sendspin.{
  start, clear, finish, Session, new_session, Event, starts, releases, hears, writes, run, on_event,
  on_stream_start, yield_to_legacy, on_audio, write, enqueue,
}
use echo_voice_satellite.Sendspin.Sync.{InSync}
use echo_voice_satellite.Sendspin.Handover.{run-InSync}
use echo_voice_satellite.Sendspin.Numbers.{chunk, round, event, log, numbered, run-numbered}
use echo_voice_satellite.Sendspin.Connection.{Loop, Move, heads, rearms, connects, steps, moves}
use echo_voice_satellite.Sendspin.Connection.Backoff.{
  failures, doubled, release_reconnects, failures-delay,
}

-- A stream starts and two chunks arrive, of which the writer has sent none.
abbrev opening : List Event
opening = starts true ∷ hears true (some 500) (1 ∷ 2 ∷ []) ∷ hears true (some 520) (3 ∷ 4 ∷ []) ∷ []

abbrev two_rounds : List Event
two_rounds = writes true ∷ hears true (some 540) (5 ∷ 6 ∷ []) ∷ writes true ∷ []

run-InSync_example : InSync (run opening new_session).0
run-InSync_example = run-InSync opening

yielded :
    (run two_rounds (yield_to_legacy (run opening new_session).0)).1
    ≡ (clear 1, false) ∷ (finish 1, false) ∷ []
unfolding run on_event on_stream_start on_audio yield_to_legacy write enqueue
yielded = refl

abbrev playing : Session
playing = record new_session { generation = 1; queue = start 1 ∷ []; has_eq = true }

run-numbered_example :
    let ws = chunk 500 (1 ∷ []) ∷ round ∷ chunk 520 (2 ∷ []) ∷ [] in
    let r = run (map event ws) playing in
    (0 ≤ r.0.dropped_frames) × (r.0.dropped_frames ≡ 0 → log r ≡ playing.queue ++ numbered 1 0 ws)
run-numbered_example =
    run-numbered (chunk 500 (1 ∷ []) ∷ round ∷ chunk 520 (2 ∷ []) ∷ []) playing (omega arith, refl)

-- The legacy player owns the music and the loop waits.
abbrev waits : Loop
waits = record {
  session = record playing { legacy_owns = true };
  closed = false;
  registered = true;
  point = rearms;
  delay = 4;
}

release_reconnects_example :
    let l = moves (Move.event releases ∷ steps false ∷ steps false ∷ []) waits in
    (l.point ≡ connects) × (l.delay ≡ 1)
release_reconnects_example = release_reconnects waits false false (refl, refl) refl refl

abbrev begins : Loop
begins = record waits { session = playing; point = heads; delay = 1 }

failures-delay_example :
    let l = moves (failures 6) begins in (l.point ≡ heads) × (l.delay ≡ min (doubled 6 1) 30)
failures-delay_example = failures-delay 6 begins (refl, refl) refl refl (omega arith)
