-- ===== src/Sendspin/Sync.antt =====
-- What holds of a session at all times, and what a hand-over of the music to the legacy player means for what
-- is sent (controller/em_sendspin.py).
use echo_voice_satellite.Prelude.{
  ℕ, ◌+◌, ◌^◌, ◌≤◌, ◌<◌, ◌≡◌, ◌≢◌, refl, Bool, true, false, Option, none, some, List, [], ◌∷◌, ◌||◌,
  not, length, length-append, sym, ap, subst, ◌∙◌, All, All-append, ltb, ◌==◌, nat_eq, string_eq,
  Bool-cases, List-cases, inl, inr, arith,
}
use echo_voice_satellite.Sendspin.{
  Item, start, clear, finish, pcm, Session, new_session, max_queue, next_word, next_generation,
  enqueue, discard_queued, Roles, for_player, on_stream_start, on_stream_clear, on_stream_end,
  on_disconnect, yield_to_legacy, release_legacy, on_audio, is_pcm, write, Event, starts, clears,
  ends, disconnects, yields, releases, hears, writes, on_event,
}

abbrev pub of_generation : Item → ℕ
of_generation (start g) = g
of_generation (clear g) = g
of_generation (finish g) = g
of_generation (pcm g n us bytes) = g

abbrev pub IsOf : ℕ → Item → Type 0
IsOf g i = of_generation i ≡ g

abbrev pub IsControl : Item → Type 0
IsControl i = is_pcm i ≡ false

pub record InSync (s : Session) : Type 0 where
  pub current : All (IsOf s.generation) s.queue
  pub bounded : length s.queue ≤ max_queue
  pub numbers : (s.generation < 2 ^ 32) × (s.sequence < 2 ^ 32)
  pub unstarted : s.generation ≡ 0 → s.queue ≡ []
  pub owned : s.legacy_owns ≡ true → All IsControl s.queue

pub new_session-InSync : InSync new_session
new_session-InSync = record {
  current = tt;
  bounded = omega arith;
  numbers = (omega arith, omega arith);
  unstarted = λ h. refl;
  owned = λ h. tt;
}

enqueue-InSync :
    (s : Session) (i : Item)
    → InSync s
    → of_generation i ≡ s.generation
    → s.generation ≢ 0
    → (s.legacy_owns ≡ true → IsControl i)
    → InSync (enqueue s i)
unfolding enqueue
enqueue-InSync s i h g ne c = elim (Bool-cases (ltb (length s.queue) max_queue)) [
  | inl room ↦
      rw (room, enqueue)
        (record {
          current = All-append (IsOf s.generation) s.queue (i ∷ []) h.current (g, tt);
          bounded = ground (arith, room, length-append s.queue (i ∷ []));
          numbers = h.numbers;
          unstarted = λ z. absurd (ne z);
          owned = λ o. All-append IsControl s.queue (i ∷ []) (h.owned o) (c o, tt);
        })
  | inr full ↦
      rw (full, enqueue)
        (record {
          current = h.current;
          bounded = h.bounded;
          numbers = h.numbers;
          unstarted = h.unstarted;
          owned = h.owned;
        })
]

-- A session with an empty queue.
empty-InSync :
    (s : Session) → s.queue ≡ [] → (s.generation < 2 ^ 32) × (s.sequence < 2 ^ 32) → InSync s
empty-InSync s q n = record {
  current = rw q tt;
  bounded = rw q (omega arith);
  numbers = n;
  unstarted = λ z. q;
  owned = λ o. rw q tt;
}

-- A change of what the invariant does not read.
same-InSync :
    (s s' : Session)
    → InSync s
    → s'.queue ≡ s.queue
    → s'.generation ≡ s.generation
    → s'.sequence < 2 ^ 32
    → (s'.legacy_owns ≡ true → s.legacy_owns ≡ true)
    → InSync s'
same-InSync s s' h q g n o = record {
  current = rw (q, g) h.current;
  bounded = rw q h.bounded;
  numbers = (omega (arith, h.numbers, g), n);
  unstarted = λ z. rw q (h.unstarted (sym g ∙ z));
  owned = λ z. rw q (h.owned (o z));
}

start-InSync : (builds : Bool) (s : Session) → InSync s → InSync (on_stream_start builds s)
unfolding on_stream_start
start-InSync builds s h =
    let g = next_generation s.generation in
    let t : Session = record s {
      has_eq = builds;
      legacy_owns = false;
      generation = g;
      sequence = 0;
      queue = [];
    } in
    enqueue-InSync t (start g) (empty-InSync t refl (ground arith, omega arith)) refl (ground arith)
      (λ o. refl)

clear-InSync : (roles : Roles) (s : Session) → InSync s → InSync (on_stream_clear roles s)
unfolding on_stream_clear
clear-InSync roles s h = elim (Bool-cases (not (for_player roles) || s.generation == 0)) [
  | inl skip ↦ rw (skip, on_stream_clear) h
  | inr go ↦
      let t : Session = record s { sequence = 0; queue = [] } in
      rw (go, on_stream_clear)
        (enqueue-InSync t (clear s.generation)
          (empty-InSync t refl (omega (arith, h.numbers), omega arith)) refl (ground arith)
          (λ o. refl))
]

end-InSync : (roles : Roles) (s : Session) → InSync s → InSync (on_stream_end roles s)
unfolding on_stream_end
end-InSync roles s h =
    let t : Session = record s { has_eq = false } in
    let same = same-InSync s t h refl refl (omega (arith, h.numbers)) (λ o. o) in
    elim (Bool-cases (for_player roles)) [
      | inr skip ↦ rw (skip, on_stream_end) h
      | inl go ↦ elim (Bool-cases (s.generation == 0)) [
        | inl idle ↦ rw (go, idle, on_stream_end) same
        | inr ready ↦
            rw (go, ready, on_stream_end)
              (enqueue-InSync t (finish s.generation) same refl (ground arith) (λ o. refl))
      ]
    ]

yield-InSync : (s : Session) → InSync s → InSync (yield_to_legacy s)
unfolding yield_to_legacy enqueue
yield-InSync s h =
    let g = s.generation in
    let t : Session = record s { legacy_owns = true; has_eq = false } in
    elim (Bool-cases s.legacy_owns) [
      | inl owns ↦
          rw (owns, yield_to_legacy)
            (same-InSync s (record s { legacy_owns = true }) h refl refl (omega (arith, h.numbers))
              (λ o. owns))
      | inr free ↦ elim (Bool-cases (g == 0)) [
        | inl idle ↦
            rw (free, idle, yield_to_legacy) (empty-InSync t (h.unstarted (ground arith)) h.numbers)
        | inr ready ↦
            let ne : g ≢ 0 = ground arith in
            let first =
              enqueue-InSync (discard_queued t) (clear g)
                (empty-InSync (discard_queued t) refl h.numbers) refl ne (λ o. refl) in
            rw (free, ready, yield_to_legacy)
              (enqueue-InSync (enqueue (discard_queued t) (clear g)) (finish g) first refl ne
                (λ o. refl))
      ]
    ]

audio-InSync :
    (ok : Bool) (target : Option ℕ) (bytes : List ℕ) (s : Session)
    → InSync s
    → InSync (on_audio ok target bytes s)
unfolding on_audio
audio-InSync ok none bytes s h =
    let t : Session = record s { rejected_frames = s.rejected_frames + 1 } in
    let refused = same-InSync s t h refl refl (omega (arith, h.numbers)) (λ o. o) in
    ground (arith, refused)
audio-InSync ok (some us) bytes s h =
    let t : Session = record s { rejected_frames = s.rejected_frames + 1 } in
    let refused = same-InSync s t h refl refl (omega (arith, h.numbers)) (λ o. o) in
    let t' : Session = record s { sequence = next_word s.sequence } in
    elim (Bool-cases (s.generation == 0 || not ok || s.legacy_owns)) [
      | inl skip ↦ rw (skip, on_audio) refused
      | inr go ↦
          rw (go, on_audio)
            (enqueue-InSync t' (pcm s.generation s.sequence us bytes)
              (same-InSync s t' h refl refl (omega arith) (λ o. o)) refl (ground arith)
              (λ o. ground arith))
    ]

-- The queue without its first item.
tail-InSync :
    (s t : Session) (i : Item) (is : List Item)
    → s.queue ≡ i ∷ is
    → t.queue ≡ is
    → t.generation ≡ s.generation
    → t.sequence ≡ s.sequence
    → t.legacy_owns ≡ s.legacy_owns
    → InSync s
    → InSync t
tail-InSync s t i is q r g n o h = record {
  current = rw (r, g) (subst (All (IsOf s.generation)) q h.current).1;
  bounded = rw r (omega (arith, h.bounded, ap length q));
  numbers = omega (arith, g, n, h.numbers);
  unstarted = λ z. let wrong : ⊥ = ground (arith, h.unstarted, q, g, z) in elim wrong [ ];
  owned = λ z. rw r (subst (All IsControl) q (h.owned (sym o ∙ z))).1;
}

write-InSync : (encodes : Bool) (s : Session) → InSync s → InSync (write encodes s).0
unfolding write
write-InSync encodes s h = elim (List-cases s.queue) [
  | inl q ↦ rw (q, write) h
  | inr (i, is, q) ↦ ground (
    arith,
    q,
    tail-InSync s (record s { queue = is }) i is q refl refl refl refl h,
    tail-InSync s (record s { queue = is; rejected_frames = s.rejected_frames + 1 }) i is q refl
        refl refl refl h,
  )
]

-- Every event keeps the queue in step with the stream.
pub on_event-InSync : (e : Event) (s : Session) → InSync s → InSync (on_event e s).0
unfolding on_event on_disconnect release_legacy
on_event-InSync (starts builds) s h = start-InSync builds s h
on_event-InSync (clears roles) s h = clear-InSync roles s h
on_event-InSync (ends roles) s h = end-InSync roles s h
on_event-InSync disconnects s h =
    let t : Session = record s { has_eq = false; disconnected = true } in
    ground (
      arith,
      same-InSync s t h refl refl (omega (arith, h.numbers)) (λ o. o),
      empty-InSync (record t { queue = [] }) refl h.numbers,
    )
on_event-InSync yields s h = yield-InSync s h
on_event-InSync releases s h =
    let t : Session = record s { legacy_owns = false; rearm = true } in
    ground (arith, h, same-InSync s t h refl refl (omega (arith, h.numbers)) (λ o. ground arith))
on_event-InSync (hears ok target bytes) s h = audio-InSync ok target bytes s h
on_event-InSync (writes encodes) s h = write-InSync encodes s h
