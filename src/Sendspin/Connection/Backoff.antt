-- ===== src/Sendspin/Connection/Backoff.antt =====
-- When the connection loop tries again (`SendspinRuntime._connection_loop` of controller/em_sendspin.py).
use echo_voice_satellite.Prelude.{
  ℕ, zero, suc, ◌*◌, ◌≤◌, Bool, true, false, List, [], ◌∷◌, min, ◌≡◌, refl, ap, ◌∙◌, All, arith,
  ltb, Bool-cases, inl, inr,
}
use echo_voice_satellite.Sendspin.{
  starts, releases, on_event, on_stream_start, release_legacy, enqueue,
}
use echo_voice_satellite.Sendspin.Connection.{
  Loop, heads, rearms, connects, step_at, step, Move, steps, event, move, moves, is_yield,
  IsForgotten, move-IsForgotten,
}

-- A session that the runtime keeps connected.
abbrev pub IsKept : Loop → Type 0
IsKept l = (l.closed ≡ false) × (l.registered ≡ true)

-- The end of the legacy playback re-arms the loop that waits for it: its next two steps lead to an attempt to
-- connect, with the delay of a first attempt.
pub release_reconnects :
    (l : Loop) (a b : Bool)
    → IsKept l
    → l.point ≡ rearms
    → l.session.legacy_owns ≡ true
    → let l' = moves (event releases ∷ steps a ∷ steps b ∷ []) l in
      (l'.point ≡ connects) × (l'.delay ≡ 1)
unfolding moves move step step_at on_event release_legacy
release_reconnects l a b (c, r) p o = ground arith

moves-IsForgotten :
    (ms : List Move) (l : Loop)
    → All (λ m. is_yield m ≡ false) ms
    → IsForgotten l
    → IsForgotten (moves ms l)
unfolding moves
moves-IsForgotten [] l n h = h
moves-IsForgotten (m ∷ ms) l (n, ns) h =
    moves-IsForgotten ms (move m l) ns (move-IsForgotten m l n h)

-- A stream that starts while the loop waits to be re-armed (on a connection that the server opened, since
-- the loop has none) takes the music back without re-arming the loop: whatever happens then, the end of the
-- legacy playback included, the loop goes on waiting until the next hand-over to the legacy player.
pub lost_rearm :
    (l : Loop) (builds : Bool) (ms : List Move)
    → l.point ≡ rearms
    → l.session.rearm ≡ false
    → All (λ m. is_yield m ≡ false) ms
    → (moves ms (move (event (starts builds)) l)).point ≡ rearms
unfolding move on_event on_stream_start enqueue
lost_rearm l builds ms p u n =
    (moves-IsForgotten ms (move (event (starts builds)) l) n (ground arith)).waits

-- An attempt that fails: its start, the attempt, the sleep.
abbrev pub failures : ℕ → List Move
failures zero = []
failures (suc k) = steps false ∷ steps false ∷ steps false ∷ failures k

abbrev pub doubled : ℕ → ℕ → ℕ
doubled zero d = d
doubled (suc k) d = doubled k (d * 2)

doubled-grows : (k d : ℕ) → d ≤ doubled k d
doubled-grows zero d = omega arith
doubled-grows (suc k) d = omega (arith, doubled-grows k (d * 2))

cap-doubled : (k d : ℕ) → min (doubled k (min d 30)) 30 ≡ min (doubled k d) 30
cap-doubled k d = elim (Bool-cases (ltb 30 d)) [
  | inl above ↦
      let capped : min d 30 ≡ 30 = ground arith in
      rw capped (ground (arith, doubled-grows k 30, doubled-grows k d))
  | inr below ↦ let same : min d 30 ≡ d = ground arith in rw same refl
]

failure :
    (l : Loop)
    → IsKept l
    → l.point ≡ heads
    → l.session.legacy_owns ≡ false
    → let l' = moves (steps false ∷ steps false ∷ steps false ∷ []) l in
      (l'.point ≡ heads)
      × (l'.delay ≡ min (l.delay * 2) 30)
      × IsKept l'
      × (l'.session.legacy_owns ≡ false)
unfolding moves move step step_at
failure l (c, r) p o = ground arith

-- The delay doubles with each attempt that fails, up to 30 seconds, and the loop is back at its head for the
-- next. The session is kept, and the legacy player does not own the music.
pub failures-delay :
    (k : ℕ) (l : Loop)
    → IsKept l
    → l.point ≡ heads
    → l.session.legacy_owns ≡ false
    → l.delay ≤ 30
    → let l' = moves (failures k) l in (l'.point ≡ heads) × (l'.delay ≡ min (doubled k l.delay) 30)
unfolding moves
failures-delay zero l h p o le = (p, ground arith)
failures-delay (suc k) l h p o le =
    let (p', d, h', o') = failure l h p o in
    let l' = moves (steps false ∷ steps false ∷ steps false ∷ []) l in
    let (q, e) = failures-delay k l' h' p' o' (omega (arith, d)) in
    (q, e ∙ ap (λ x. min (doubled k x) 30) d ∙ cap-doubled k (l.delay * 2))
