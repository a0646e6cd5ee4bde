-- ===== src/Sendspin/Handover.antt =====
-- What a session sends across a run of events: the hand-over of the music to the legacy player, and the
-- filters at the end of a stream (controller/em_sendspin.py).
use echo_voice_satellite.Prelude.{
  ◌≡◌, subst, Bool, true, false, none, some, List, [], ◌∷◌, All, All-append, nat_eq, List-cases,
  inl, inr, arith,
}
use echo_voice_satellite.Sendspin.{
  Session, new_session, enqueue, Roles, for_player, on_stream_clear, on_stream_end, on_disconnect,
  yield_to_legacy, release_legacy, on_audio, Sent, write, Event, starts, clears, ends, disconnects,
  yields, releases, hears, writes, on_event, run,
}
use echo_voice_satellite.Sendspin.Sync.{InSync, IsControl, new_session-InSync, on_event-InSync}

run_keeps : (es : List Event) (s : Session) → InSync s → InSync (run es s).0
unfolding run
run_keeps [] s h = h
run_keeps (e ∷ es) s h = run_keeps es (on_event e s).0 (on_event-InSync e s h)

-- At all times: the queue holds work of the current generation only, 256 items at most and none before the
-- first stream, and no audio while the legacy player owns the music; generation and sequence fit 32 bits.
pub run-InSync : (es : List Event) → InSync (run es new_session).0
run-InSync es = run_keeps es new_session new_session-InSync

-- The events that give the music back: a new stream of the group, and the end of the legacy playback.
abbrev pub gives_back : Event → Bool
gives_back (starts builds) = true
gives_back releases = true
gives_back _ = false

abbrev pub is_start : Event → Bool
is_start (starts builds) = true
is_start _ = false

abbrev pub Silent : Sent → Type 0
Silent w = IsControl w.0

abbrev pub Raw : Sent → Type 0
Raw w = w.1 ≡ false

write-Silent :
    (encodes : Bool) (s : Session) → All IsControl s.queue → All Silent (write encodes s).1
unfolding write
write-Silent encodes s h = elim (List-cases s.queue) [
  | inl q ↦ ground (arith, q)
  | inr (i, is, q) ↦ let c : IsControl i = (subst (All IsControl) q h).0 in ground (arith, q, c)
]

stays-owned :
    (e : Event) (s : Session)
    → gives_back e ≡ false
    → s.legacy_owns ≡ true
    → (on_event e s).0.legacy_owns ≡ true
unfolding on_event on_stream_clear on_stream_end on_disconnect yield_to_legacy on_audio enqueue
    write
stays-owned (starts builds) s n o = cc
stays-owned (clears roles) s n o = ground arith
stays-owned (ends roles) s n o = ground arith
stays-owned disconnects s n o = ground arith
stays-owned yields s n o = ground arith
stays-owned releases s n o = cc
stays-owned (hears ok none bytes) s n o = ground arith
stays-owned (hears ok (some us) bytes) s n o = ground arith
stays-owned (writes encodes) s n o = elim (List-cases s.queue) [
  | inl q ↦ ground (arith, q)
  | inr (i, is, q) ↦ ground (arith, q)
]

event-Silent :
    (e : Event) (s : Session) → InSync s → s.legacy_owns ≡ true → All Silent (on_event e s).1
unfolding on_event
event-Silent (starts builds) s h o = tt
event-Silent (clears roles) s h o = tt
event-Silent (ends roles) s h o = tt
event-Silent disconnects s h o = tt
event-Silent yields s h o = tt
event-Silent releases s h o = tt
event-Silent (hears ok target bytes) s h o = tt
event-Silent (writes encodes) s h o = write-Silent encodes s (h.owned o)

run-Silent :
    (es : List Event) (s : Session)
    → InSync s
    → s.legacy_owns ≡ true
    → All (λ e. gives_back e ≡ false) es
    → All Silent (run es s).1
unfolding run
run-Silent [] s h o n = tt
run-Silent (e ∷ es) s h o (n, ns) =
    let s' = (on_event e s).0 in
    All-append Silent (on_event e s).1 (run es s').1 (event-Silent e s h o)
      (run-Silent es s' (on_event-InSync e s h) (stays-owned e s n o) ns)

yield-owned : (s : Session) → (yield_to_legacy s).legacy_owns ≡ true
unfolding yield_to_legacy enqueue
yield-owned s = ground arith

-- The legacy player wins: once a session has yielded to it, no audio of the group reaches the device,
-- whatever happens, until the group starts a new stream or the legacy playback ends.
pub yield-Silent :
    (es before : List Event)
    → All (λ e. gives_back e ≡ false) es
    → All Silent (run es (yield_to_legacy (run before new_session).0)).1
unfolding on_event
yield-Silent es before n =
    let s = (run before new_session).0 in
    run-Silent es (yield_to_legacy s) (on_event-InSync yields s (run-InSync before)) (yield-owned s)
      n

stays-Raw :
    (e : Event) (s : Session)
    → is_start e ≡ false
    → s.has_eq ≡ false
    → ((on_event e s).0.has_eq ≡ false) × All Raw (on_event e s).1
unfolding on_event on_stream_clear on_stream_end on_disconnect yield_to_legacy release_legacy
    on_audio enqueue write
stays-Raw (starts builds) s n o = cc
stays-Raw (clears roles) s n o = ground arith
stays-Raw (ends roles) s n o = ground arith
stays-Raw disconnects s n o = ground arith
stays-Raw yields s n o = ground arith
stays-Raw releases s n o = ground arith
stays-Raw (hears ok none bytes) s n o = ground arith
stays-Raw (hears ok (some us) bytes) s n o = ground arith
stays-Raw (writes encodes) s n o = elim (List-cases s.queue) [
  | inl q ↦ ground (arith, q)
  | inr (i, is, q) ↦ ground (arith, q)
]

run-Raw :
    (es : List Event) (s : Session)
    → s.has_eq ≡ false
    → All (λ e. is_start e ≡ false) es
    → All Raw (run es s).1
unfolding run
run-Raw [] s o n = tt
run-Raw (e ∷ es) s o (n, ns) =
    let (o', raw) = stays-Raw e s n o in
    All-append Raw (on_event e s).1 (run es (on_event e s).0).1 raw
      (run-Raw es (on_event e s).0 o' ns)

-- The end of a stream takes the filters away at once: all audio that is still in the queue then, and all that
-- follows up to the next start, is sent without them.
pub end-Raw :
    (es : List Event) (roles : Roles) (s : Session)
    → for_player roles ≡ true
    → All (λ e. is_start e ≡ false) es
    → All Raw (run es (on_stream_end roles s)).1
unfolding on_stream_end enqueue
end-Raw es roles s p n = run-Raw es (on_stream_end roles s) (ground arith) n
