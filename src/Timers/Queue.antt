-- ===== src/Timers/Queue.antt =====
-- The line of alarms as the client of controller/em_timers.py sees it: what an event and a dismissal
-- make of it.
use echo_voice_satellite.Prelude.{
  ℕ, String, ◌≡◌, refl, Bool, true, false, Option, none, some, List, [], ◌∷◌, ◌++◌, arith, ◌&&◌,
  ◌||◌, not, elem, if◌then◌else◌, string_eq, eq_iff, Bool-cases, inl, inr,
}
use echo_voice_satellite.Prelude.Dict.{get, put, remove, get-put}
use echo_voice_satellite.Timers.{
  TimerRecord, Event, Kind, started, updated, cancelled, finished, lifecycle, Session, ring,
  dispatch, apply_known, apply, is_cancelled, is_last, id_of, from_payload, dismiss_current,
  snapshot_state, line_of, transition,
}
use echo_voice_satellite.Timers.Line.{line, holds, without, remove_finished-line}
use echo_voice_satellite.Timers.Sound.{IsSound}

-- The event that a payload is, if the session acts on it: it names a life cycle event and a timer, is
-- not the timer's last payload again, and is not about a timer that was cancelled.
abbrev pub live_event : Session → Kind → String → String → Option (Kind × String)
live_event s kind id fingerprint =
    if is_last (get id s.last_payload) fingerprint
      || (elem id s.cancelled_ids && not (is_cancelled kind))
    then none
    else some (kind, id)

-- What the event makes of the line: a finished timer joins its end unless it is in it, and any other
-- event takes the timer out.
abbrev pub moved : Kind → String → TimerRecord → List TimerRecord → List TimerRecord
moved finished id timer ts = if holds id ts then ts else ts ++ timer ∷ []
moved k id timer ts = without id ts

abbrev pub moves : Kind → String → List TimerRecord → Bool
moves finished id ts = not (holds id ts)
moves k id ts = holds id ts

abbrev pub is_empty : List TimerRecord → Bool
is_empty [] = true
is_empty (t ∷ ts) = false

module _ (s : Session) where
  ring-moved :
      (c : Option TimerRecord) (q : List TimerRecord) (id : String) (timer : TimerRecord)
      → s.current ≡ c
      → s.queue ≡ q
      → (c ≡ none → q ≡ [])
      → (line (ring c s id timer).0 ≡ moved finished id timer (line s))
        × ((ring c s id timer).1.alarm_changed ≡ moves finished id (line s))
  unfolding ring
  ring-moved none (t ∷ ts) id timer ec eq idle = absurd (cc (idle refl))
  ring-moved none [] id timer ec eq idle = (ground arith, ground arith)
  ring-moved (some c) q id timer ec eq idle = (ground arith, ground arith)

abbrev pub line_after : Option (Kind × String) → TimerRecord → List TimerRecord → List TimerRecord
line_after none timer ts = ts
line_after (some (k, id)) timer ts = moved k id timer ts

abbrev pub changes : Option (Kind × String) → List TimerRecord → Bool
changes none ts = false
changes (some (k, id)) ts = moves k id ts

dispatch-moved :
    (kind : Kind) (s : Session) (id : String) (timer : TimerRecord)
    → IsSound s
    → (line (dispatch kind s id timer).0 ≡ moved kind id timer (line s))
      × ((dispatch kind s id timer).1.alarm_changed ≡ moves kind id (line s))
unfolding dispatch
dispatch-moved cancelled s id timer v =
    let r =
      remove_finished-line
        (record s { cancelled_ids = id ∷ s.cancelled_ids; running = remove id s.running }) id v.idle
        v.distinct in
    (r.0, r.1)
dispatch-moved finished s id timer v =
    ring-moved (record s { running = remove id s.running }) s.current s.queue id timer refl refl
      v.idle
dispatch-moved started s id timer v =
    let r =
      remove_finished-line (record s { running = put id timer s.running }) id v.idle v.distinct in
    (r.0, r.1)
dispatch-moved updated s id timer v =
    let r =
      remove_finished-line (record s { running = put id timer s.running }) id v.idle v.distinct in
    (r.0, r.1)

known-moved :
    (s : Session) (kind : Kind) (id : String) (timer : TimerRecord) (f : String)
    → IsSound s
    → (line (apply_known s kind id timer f).0 ≡ line_after (live_event s kind id f) timer (line s))
      × ((apply_known s kind id timer f).1.alarm_changed
          ≡ changes (live_event s kind id f) (line s))
unfolding apply_known
known-moved s kind id timer f v =
    let s' = record s { last_payload = put id f s.last_payload } in
    let v' : IsSound s' = record { idle = v.idle; distinct = v.distinct; silent = v.silent } in
    elim (Bool-cases (is_last (get id s.last_payload) f)) [
      | inl same ↦ rw (same, apply_known) (refl, refl)
      | inr new ↦ elim (Bool-cases (elem id s.cancelled_ids && not (is_cancelled kind))) [
        | inl dead ↦ rw (new, dead, apply_known) (refl, refl)
        | inr live ↦ rw (new, live, apply_known) (dispatch-moved kind s' id timer v')
      ]
    ]

ring-last :
    (c : Option TimerRecord) (s : Session) (id : String) (timer : TimerRecord)
    → (ring c s id timer).0.last_payload ≡ s.last_payload
unfolding ring
ring-last none s id timer = ground arith
ring-last (some c) s id timer = ground arith

dispatch-last :
    (kind : Kind) (s : Session) (id : String) (timer : TimerRecord)
    → (dispatch kind s id timer).0.last_payload ≡ s.last_payload
unfolding dispatch
dispatch-last finished s id timer =
    ring-last s.current (record s { running = remove id s.running }) id timer
dispatch-last cancelled s id timer = refl
dispatch-last started s id timer = refl
dispatch-last updated s id timer = refl

known-last :
    (s : Session) (kind : Kind) (id : String) (timer : TimerRecord) (f : String)
    → is_last (get id (apply_known s kind id timer f).0.last_payload) f ≡ true
unfolding apply_known
known-last s kind id timer f =
    let s' = record s { last_payload = put id f s.last_payload } in
    ground (
      arith,
      dispatch-last kind s' id timer,
      get-put id id f s.last_payload,
      eq_iff id id,
      eq_iff f f,
    )

known_repeat :
    (s : Session) (kind : Kind) (id : String) (timer : TimerRecord) (f : String)
    → is_last (get id s.last_payload) f ≡ true
    → apply_known s kind id timer f ≡ (s, transition true true false)
unfolding apply_known
known_repeat s kind id timer f h = rw (h, apply_known)

module _ (dumps : Event → String) where
  -- In a sound session, a life cycle event of a timer moves the line of alarms as it should: a finished
  -- timer joins the end unless it is in the line, any other event takes its timer out, and a repeated
  -- payload or an event of a cancelled timer changes nothing; and the answer `alarm_changed` says
  -- exactly whether an alarm came or went.
  pub apply-line :
      (s : Session) (e : Event) (now : Option ℕ) (kind : Kind) (id : String)
      → IsSound s
      → lifecycle e.event ≡ some kind
      → id_of e ≡ some id
      → (line (apply dumps s e now).0
          ≡ line_after (live_event s kind id (dumps e)) (from_payload e id now) (line s))
        × ((apply dumps s e now).1.alarm_changed
            ≡ changes (live_event s kind id (dumps e)) (line s))
  unfolding apply
  apply-line s e now kind id v q r =
      rw (q, r, apply) (known-moved s kind id (from_payload e id now) (dumps e) v)

  apply-known :
      (s : Session) (e : Event) (now : Option ℕ) (kind : Kind) (id : String)
      → lifecycle e.event ≡ some kind
      → id_of e ≡ some id
      → apply dumps s e now ≡ apply_known s kind id (from_payload e id now) (dumps e)
  unfolding apply
  apply-known s e now kind id q r = rw (q, r, apply)

  -- A payload that comes again at once is a duplicate: it is accepted and changes nothing.
  pub apply_again :
      (s : Session) (e : Event) (now later : Option ℕ) (kind : Kind) (id : String)
      → lifecycle e.event ≡ some kind
      → id_of e ≡ some id
      → apply dumps (apply dumps s e now).0 e later
        ≡ ((apply dumps s e now).0, transition true true false)
  apply_again s e now later kind id q r =
      let f = dumps e in
      let one = apply-known s e now kind id q r in
      rw (one, apply-known (apply_known s kind id (from_payload e id now) f).0 e later kind id q r)
        (known_repeat (apply_known s kind id (from_payload e id now) f).0 kind id
          (from_payload e id later) f (known-last s kind id (from_payload e id now) f))

-- Dismissing takes the first alarm of the line, or nothing from an empty one.
pub dismiss_current-line :
    (s : Session)
    → (s.current ≡ none → s.queue ≡ [])
    → line_of (dismiss_current s).1 (line (dismiss_current s).0) ≡ line s
unfolding dismiss_current
dismiss_current-line s idle = dismissed s.current s.queue refl refl
  where
    dismissed :
        (c : Option TimerRecord) (q : List TimerRecord)
        → s.current ≡ c
        → s.queue ≡ q
        → line_of (dismiss_current s).1 (line (dismiss_current s).0) ≡ line s
    dismissed none q ec eq = ground arith
    dismissed (some t) [] ec eq = ground arith
    dismissed (some t) (u ∷ us) ec eq = ground arith

-- In a sound session the state that Home Assistant is shown is "ringing" or "idle", by whether an alarm
-- is in the line: it is never "queued".
pub snapshot_state-line :
    (s : Session) → IsSound s → snapshot_state s ≡ (if is_empty (line s) then "idle" else "ringing")
unfolding snapshot_state
snapshot_state-line s v = shown s.current s.queue refl refl
  where
    shown :
        (c : Option TimerRecord) (q : List TimerRecord)
        → s.current ≡ c
        → s.queue ≡ q
        → snapshot_state s ≡ (if is_empty (line s) then "idle" else "ringing")
    shown none [] ec eq = rw (ec, eq, snapshot_state)
    shown none (t ∷ ts) ec eq = absurd (cc (v.idle ec))
    shown (some t) q ec eq = rw (ec, snapshot_state)
