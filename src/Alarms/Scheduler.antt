-- ===== src/Alarms/Scheduler.antt =====
-- controller/em_alarm_scheduler.py: a pass of the scheduler over the stored alarms. The clock may step
-- either way between two passes. `fired` says whether the callback `fire` returned; one that raises leaves
-- the alarm as it was, since the pass over it ends there.
pub mod Fires
use echo_voice_satellite.Prelude.{
  ℕ, ◌+◌, ◌≤◌, ◌<◌, ◌≡◌, refl, String, Bool, true, false, Bool-cases, Option-cases, Option, none,
  some, List, [], ◌∷◌, ◌++◌, ◌&&◌, not, ltb, leb, inl, inr, arith, All, ◌==◌, string_eq, eq_iff,
  if◌then◌else◌,
}
use echo_voice_satellite.Prelude.Result.{Result, ok, err, Result-cases}
use echo_voice_satellite.Alarms.{
  Calendar, AlarmError, AlarmSpec, next_fire, occurrence_key, within_grace,
}
use echo_voice_satellite.Alarms.NextFire.{next_fire_after}

-- One alarm as it is stored, with its cached next time and the occurrence that it last fired for.
pub record Row : Type 0 where
  pub spec : AlarmSpec
  pub next_fire_utc : Option ℕ
  pub last_fired : Option String

-- A call of `fire`, with the time that it was due.
pub record Fire : Type 0 where
  pub device_id : String
  pub timer_id : String
  pub label : Option String
  pub due : ℕ

abbrev pub is_key : Option String → String → Bool
is_key none k = false
is_key (some j) k = j == k

module _ (c : Calendar) (grace : ℕ) where
  -- `alarm:<id>:<occurrence>`, with what joins texts as a parameter
  module _ (timer_id : String → String → String) where
    abbrev pub disabled : Row → String → Row
    disabled r key = record {
      spec = record r.spec { enabled = false };
      next_fire_utc = none;
      last_fired = some key;
    }

    -- What is stored of an alarm that was handled, by its next time: none disables it.
    abbrev pub advance : Row → String → Result AlarmError (Option ℕ) → Row
    advance r key (err e) = r
    advance r key (ok none) = disabled r key
    advance r key (ok (some t)) = record r { next_fire_utc = some t; last_fired = some key }

    abbrev pub store_first : Row → Result AlarmError (Option ℕ) → Row
    store_first r (err e) = r
    store_first r (ok t) = record r { next_fire_utc = t }

    abbrev pub fire_of : Row → String → ℕ → Fire
    fire_of r key due = record {
      device_id = r.spec.device_id;
      timer_id = timer_id r.spec.id key;
      label = r.spec.label;
      due = due;
    }

    -- The alarm that is due, by its occurrence.
    abbrev pub handle : Row → ℕ → ℕ → Bool → Result AlarmError String → Row × List Fire
    handle r due now fired (err e) = (r, [])
    handle r due now fired (ok key) =
        let late = within_grace due now grace in
        let fires = not (is_key r.last_fired key) && late in
        let calls : List Fire = if fires then fire_of r key due ∷ [] else [] in
        let next : Row = advance r key (next_fire c r.spec (if late then due else now)) in
        (if fires && not fired then r else next, calls)

    pub reconcile_alarm : Row → ℕ → Bool → Row × List Fire
    reconcile_alarm r now fired = elim r.next_fire_utc [
      | none ↦ (store_first r (next_fire c r.spec now), [])
      | some due ↦
          if ltb now due then (r, []) else handle r due now fired (occurrence_key c r.spec due)
    ]

    -- Passes over one alarm, each at its time.
    pub passes : Row → List (ℕ × Bool) → Row × List Fire
    passes r [] = (r, [])
    passes r ((now, fired) ∷ rest) =
        let (r', calls) = reconcile_alarm r now fired in
        let (r'', more) = passes r' rest in (r'', calls ++ more)
