-- ===== src/Timers/Sound.antt =====
-- What holds of a session of controller/em_timers.py after any events and dismissals.
use echo_voice_satellite.Prelude.{
  ℕ, String, ◌≡◌, refl, subst, true, false, Option, none, some, List, [], ◌∷◌, ◌++◌, arith, ◌&&◌,
  ◌||◌, not, elem, if◌then◌else◌, ◌==◌, string_eq, eq_iff, Bool-cases, Option-cases, inl, inr,
}
use echo_voice_satellite.Prelude.Dict.{get, put, remove, get-put, get-remove}
use echo_voice_satellite.Timers.{
  TimerRecord, Event, Kind, started, updated, cancelled, finished, lifecycle, Session, new_session,
  remove_finished, ring, dispatch, apply_known, apply, is_cancelled, is_last, id_of, from_payload,
  dismiss_current, dismiss_all,
}
use echo_voice_satellite.Timers.Line.{
  line, holds, Distinct, remove_finished-line, holds-without, without-Distinct, holds-append,
  append-Distinct,
}

-- An idle session has no queue, no timer is in the line of alarms twice, and no id of `cancelled_ids`
-- runs or rings.
pub record IsSound (s : Session) : Type 0 where
  pub idle : s.current ≡ none → s.queue ≡ []
  pub distinct : Distinct (line s)
  pub silent :
      (id : String)
      → elem id s.cancelled_ids ≡ true
      → (holds id (line s) ≡ false) × (get id s.running ≡ none)

-- The session stays sound when a timer is taken out of its line, if the ids that are silent meanwhile
-- are that timer's and those that were.
remove_finished-IsSound :
    (s : Session) (id : String)
    → (s.current ≡ none → s.queue ≡ [])
    → Distinct (line s)
    → ((j : String)
        → elem j s.cancelled_ids ≡ true
        → (((id == j) || not (holds j (line s))) ≡ true) × (get j s.running ≡ none))
    → IsSound (remove_finished s id).0
unfolding remove_finished
remove_finished-IsSound s id idle d silent =
    let r = remove_finished-line s id idle d in
    record {
      idle = r.2;
      distinct = rw r.0 (without-Distinct id (line s) d);
      silent =
          λ j e. (rw r.0 (ground (arith, silent j e, holds-without id j (line s))), (silent j e).1);
    }

abbrev ringing : Session → String → TimerRecord → List TimerRecord
ringing s id timer = if holds id (line s) then line s else line s ++ timer ∷ []

record Rings (s s' : Session) (id : String) (timer : TimerRecord) : Type 0 where
  into : line s' ≡ ringing s id timer
  busy : s'.current ≡ none → s'.queue ≡ []
  runs : s'.running ≡ s.running
  dead : s'.cancelled_ids ≡ s.cancelled_ids

ring-Rings :
    (c : Option TimerRecord) (q : List TimerRecord) (s : Session) (id : String)
    (timer : TimerRecord)
    → s.current ≡ c
    → s.queue ≡ q
    → (c ≡ none → q ≡ [])
    → Rings s (ring c s id timer).0 id timer
unfolding ring
ring-Rings none (t ∷ ts) s id timer ec eq idle = absurd (cc (idle refl))
ring-Rings none [] s id timer ec eq idle = record {
  into = ground arith;
  busy = λ e. ground arith;
  runs = ground arith;
  dead = ground arith;
}
ring-Rings (some c) q s id timer ec eq idle = record {
  into = ground arith;
  busy = λ e. ground arith;
  runs = ground arith;
  dead = ground arith;
}

ring-IsSound :
    (s : Session) (id : String) (timer : TimerRecord)
    → timer.timer_id ≡ id
    → elem id s.cancelled_ids ≡ false
    → IsSound s
    → IsSound (ring s.current s id timer).0
ring-IsSound s id timer n e v =
    let r = ring-Rings s.current s.queue s id timer refl refl v.idle in
    record {
      idle = r.busy;
      distinct = elim (Bool-cases (holds id (line s))) [
        | inl h ↦ rw (r.into, h) v.distinct
        | inr h ↦ rw (r.into, h) (append-Distinct (line s) timer v.distinct (rw n h))
      ];
      silent = λ j m.
          let k : elem j s.cancelled_ids ≡ true = rw (← r.dead) m in
          let w = v.silent j k in
          (
            rw r.into
                (ground (arith, w.0, holds-append j (line s) timer, eq_iff timer.timer_id j, e, k)),
            rw r.runs w.1,
          );
    }

put-IsSound :
    (s : Session) (id : String) (timer : TimerRecord)
    → elem id s.cancelled_ids ≡ false
    → IsSound s
    → IsSound (remove_finished (record s { running = put id timer s.running }) id).0
put-IsSound s id timer live v =
    remove_finished-IsSound (record s { running = put id timer s.running }) id v.idle v.distinct
      λ j e. (
        ground (arith, v.silent j e),
        ground (arith, e, live, v.silent j e, eq_iff id j, get-put id j timer s.running),
      )

dispatch-IsSound :
    (kind : Kind) (s : Session) (id : String) (timer : TimerRecord)
    → timer.timer_id ≡ id
    → (is_cancelled kind ≡ false → elem id s.cancelled_ids ≡ false)
    → IsSound s
    → IsSound (dispatch kind s id timer).0
unfolding dispatch
dispatch-IsSound cancelled s id timer n live v =
    remove_finished-IsSound
      (record s { cancelled_ids = id ∷ s.cancelled_ids; running = remove id s.running }) id v.idle
      v.distinct
      λ j e. (
        ground (arith, e, v.silent j, eq_iff j id, eq_iff id j),
        ground (arith, e, v.silent j, eq_iff j id, eq_iff id j, get-remove id j s.running),
      )
dispatch-IsSound finished s id timer n live v =
    ring-IsSound (record s { running = remove id s.running }) id timer n (live refl)
      (record {
        idle = v.idle;
        distinct = v.distinct;
        silent = λ j e. ((v.silent j e).0, ground (arith, v.silent j e, get-remove id j s.running));
      })
dispatch-IsSound started s id timer n live v = put-IsSound s id timer (live refl) v
dispatch-IsSound updated s id timer n live v = put-IsSound s id timer (live refl) v

apply_known-IsSound :
    (s : Session) (kind : Kind) (id : String) (timer : TimerRecord) (f : String)
    → timer.timer_id ≡ id
    → IsSound s
    → IsSound (apply_known s kind id timer f).0
unfolding apply_known
apply_known-IsSound s kind id timer f n v =
    let s' = record s { last_payload = put id f s.last_payload } in
    let v' : IsSound s' = record { idle = v.idle; distinct = v.distinct; silent = v.silent } in
    elim (Bool-cases (is_last (get id s.last_payload) f)) [
      | inl same ↦ rw (same, apply_known) v
      | inr new ↦ elim (Bool-cases (elem id s.cancelled_ids && not (is_cancelled kind))) [
        | inl dead ↦ rw (new, dead, apply_known) v'
        | inr live ↦
            rw (new, live, apply_known)
              (dispatch-IsSound kind s' id timer n (λ k. ground (arith, live, k)) v')
      ]
    ]

-- One call on a session. `timeout_current` and `delivery_failed` are calls of `dismiss_current`, and
-- `disconnect` is one of `dismiss_all`.
pub data Call : Type 0 where
  applies : Event → Option ℕ → Call
  dismisses dismisses_all : Call

dismiss_current-IsSound : (s : Session) → IsSound s → IsSound (dismiss_current s).0
unfolding dismiss_current
dismiss_current-IsSound s v = dismissed s.current s.queue refl refl
  where
    dismissed :
        (c : Option TimerRecord) (q : List TimerRecord)
        → s.current ≡ c
        → s.queue ≡ q
        → IsSound (dismiss_current s).0
    dismissed none q ec eq = rw (ec, dismiss_current) v
    dismissed (some t) [] ec eq =
        rw (ec, eq, dismiss_current)
          (record { idle = λ e. refl; distinct = tt; silent = λ j m. (refl, (v.silent j m).1) })
    dismissed (some t) (u ∷ us) ec eq =
        let l : line s ≡ t ∷ u ∷ us = ground arith in
        let d : Distinct (t ∷ u ∷ us) = subst Distinct l v.distinct in
        rw (ec, eq, dismiss_current)
          (record {
            idle = λ e. absurd (cc e);
            distinct = d.1;
            silent = λ j m. (ground (arith, l, v.silent j m), (v.silent j m).1);
          })

module _ (dumps : Event → String) where
  apply-IsSound :
      (s : Session) (e : Event) (now : Option ℕ) → IsSound s → IsSound (apply dumps s e now).0
  unfolding apply
  apply-IsSound s e now v = elim (Option-cases (lifecycle e.event)) [
    | inl q ↦ rw (q, apply) v
    | inr (kind, q) ↦ elim (Option-cases (id_of e)) [
      | inl r ↦ rw (q, r, apply) v
      | inr (id, r) ↦
          rw (q, r, apply) (apply_known-IsSound s kind id (from_payload e id now) (dumps e) refl v)
    ]
  ]

  unfoldable pub step : Session → Call → Session
  step s (applies e now) = (apply dumps s e now).0
  step s dismisses = (dismiss_current s).0
  step s dismisses_all = (dismiss_all s).0

  unfoldable pub run : Session → List Call → Session
  unfolding step
  run s [] = s
  run s (c ∷ cs) = run (step s c) cs

  step-IsSound : (s : Session) (c : Call) → IsSound s → IsSound (step s c)
  unfolding step dismiss_all
  step-IsSound s (applies e now) v = apply-IsSound s e now v
  step-IsSound s dismisses v = dismiss_current-IsSound s v
  step-IsSound s dismisses_all v = record {
    idle = λ e. refl;
    distinct = tt;
    silent = λ j m. (refl, (v.silent j m).1);
  }

  run_keeps : (s : Session) (cs : List Call) → IsSound s → IsSound (run s cs)
  unfolding run
  run_keeps s [] v = v
  run_keeps s (c ∷ cs) v = run_keeps (step s c) cs (step-IsSound s c v)

  -- A new session stays sound.
  pub run-IsSound : (cs : List Call) → IsSound (run new_session cs)
  run-IsSound cs =
      run_keeps new_session cs
        (record { idle = λ e. refl; distinct = tt; silent = λ j m. absurd (cc m) })
