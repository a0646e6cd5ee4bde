-- ===== src/Sendspin/Numbers.antt =====
-- The numbers of the audio that a session sends (controller/em_sendspin.py).
use echo_voice_satellite.Prelude.{
  ℕ, ◌≤◌, ◌≡◌, ◌≢◌, refl, sym, ap, ◌∙◌, true, false, some, List, [], ◌∷◌, ◌++◌, map, append_nil,
  nat_eq, List-cases, inl, inr, arith,
}
use mathlib.Core.List.{append_assoc}
use echo_voice_satellite.Sendspin.{
  Item, pcm, Session, next_word, enqueue, on_audio, Sent, write, Event, hears, writes, on_event,
  run,
}

-- Audio that arrives while the writer works: its times on the device and its bytes, and the writer's rounds.
pub data Work : Type 0 where
  chunk : ℕ → List ℕ → Work
  round : Work

abbrev pub event : Work → Event
event (chunk us bytes) = hears true (some us) bytes
event round = writes true

-- The chunks, as items of a generation numbered from `n`.
abbrev pub numbered : ℕ → ℕ → List Work → List Item
numbered g n [] = []
numbered g n (chunk us bytes ∷ ws) = pcm g n us bytes ∷ numbered g (next_word n) ws
numbered g n (round ∷ ws) = numbered g n ws

-- What was sent and what waits.
abbrev pub log : Session × List Sent → List Item
log r = map (λ w. w.0) r.1 ++ r.0.queue

map-append :
    (xs ys : List Sent) → map (λ w. w.0) (xs ++ ys) ≡ map (λ w. w.0) xs ++ map (λ w. w.0) ys
map-append [] ys = refl
map-append (x ∷ xs) ys = ap (λ r. x.0 ∷ r) (map-append xs ys)

-- A session that plays: a stream has started and the legacy player does not own the music.
abbrev pub IsPlaying : Session → Type 0
IsPlaying s = (s.generation ≢ 0) × (s.legacy_owns ≡ false)

chunk-log :
    (us : ℕ) (bytes : List ℕ) (s : Session)
    → IsPlaying s
    → let s' = on_audio true (some us) bytes s in
      (s.dropped_frames ≤ s'.dropped_frames)
      × (s'.generation ≡ s.generation)
      × (s'.legacy_owns ≡ false)
      × (s'.sequence ≡ next_word s.sequence)
      × (s'.dropped_frames ≡ s.dropped_frames
          → s'.queue ≡ s.queue ++ pcm s.generation s.sequence us bytes ∷ [])
unfolding on_audio enqueue
chunk-log us bytes s (ne, free) = ground arith

round-log :
    (s : Session)
    → let (s', sent) = write true s in
      (map (λ w. w.0) sent ++ s'.queue ≡ s.queue)
      × (s'.dropped_frames ≡ s.dropped_frames)
      × (s'.generation ≡ s.generation)
      × (s'.legacy_owns ≡ s.legacy_owns)
      × (s'.sequence ≡ s.sequence)
unfolding write
round-log s = elim (List-cases s.queue) [
  | inl q ↦ ground (arith, q)
  | inr (i, is, q) ↦ ground (arith, q)
]

-- Audio that arrives while the writer works reaches it in order and numbered one by one from the session's
-- sequence, behind what waited before, with nothing lost and nothing made up: what was sent and what still
-- waits is that, however arrivals and rounds are interleaved. The session plays, and no frame is dropped; the
-- count of those that are never falls.
pub run-numbered :
    (ws : List Work) (s : Session)
    → IsPlaying s
    → let r = run (map event ws) s in
      (s.dropped_frames ≤ r.0.dropped_frames)
      × (r.0.dropped_frames ≡ s.dropped_frames
          → log r ≡ s.queue ++ numbered s.generation s.sequence ws)
unfolding run on_event
run-numbered [] s p = (omega arith, λ d. sym (append_nil s.queue))
run-numbered (chunk us bytes ∷ ws) s (ne, free) =
    let s' = on_audio true (some us) bytes s in
    let (more, g, o, n, adds) = chunk-log us bytes s (ne, free) in
    let (later, ih) = run-numbered ws s' (λ z. ne (sym g ∙ z), o) in
    (
      omega (arith, more, later),
      λ d.
          ih (omega (arith, more, later, d))
          ∙ ap (λ q. q ++ numbered s'.generation s'.sequence ws)
              (adds (omega (arith, more, later, d)))
          ∙ append_assoc s.queue (pcm s.generation s.sequence us bytes ∷ [])
              (numbered s'.generation s'.sequence ws)
          ∙ ap (λ k. s.queue ++ pcm s.generation s.sequence us bytes ∷ numbered k s'.sequence ws) g
          ∙ ap (λ k. s.queue ++ pcm s.generation s.sequence us bytes ∷ numbered s.generation k ws)
              n,
    )
run-numbered (round ∷ ws) s (ne, free) =
    let (s', sent) = write true s in
    let (keeps, d', g, o, n) = round-log s in
    let (later, ih) = run-numbered ws s' (λ z. ne (sym g ∙ z), o ∙ free) in
    let r = run (map event ws) s' in
    (
      omega (arith, later, d'),
      λ d.
          ap (λ q. q ++ r.0.queue) (map-append sent r.1)
          ∙ append_assoc (map (λ w. w.0) sent) (map (λ w. w.0) r.1) r.0.queue
          ∙ ap (λ q. map (λ w. w.0) sent ++ q) (ih (d ∙ sym d'))
          ∙ sym
              (append_assoc (map (λ w. w.0) sent) s'.queue (numbered s'.generation s'.sequence ws))
          ∙ ap (λ q. q ++ numbered s'.generation s'.sequence ws) keeps
          ∙ ap (λ k. s.queue ++ numbered k s'.sequence ws) g
          ∙ ap (λ k. s.queue ++ numbered s.generation k ws) n,
    )
