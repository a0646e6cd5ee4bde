-- ===== src/Alarms.antt =====
-- controller/em_alarms.py: when an alarm of the wall clock fires. An instant is a count of seconds (UTC), a
-- local wall time one of seconds since 0001-01-01, which was a Monday, and a date one of days since then.
pub mod NextFire
pub mod Scheduler
mod Tests
use echo_voice_satellite.Prelude.{
  ℕ, zero, suc, ◌+◌, ◌-◌, ◌*◌, ◌/◌, ◌%◌, ◌^◌, String, Bool, true, false, Option, none, some, List,
  [], ◌∷◌, ◌&&◌, ◌||◌, not, ltb, leb, if◌then◌else◌, ◌==◌, nat_eq, string_eq,
}
use echo_voice_satellite.Prelude.Result.{Result, ok, err, ◌>>=◌, ◌>>◌, raise_if}

-- What the code takes of Python's datetime and zoneinfo: the zones that there are, dates as texts, the
-- instant of a local wall time (`fold=0`), and the local wall time of an instant.
pub record Calendar : Type 0 where
  pub has_zone : String → Bool
  pub fromisoformat : String → Option ℕ
  pub isoformat : ℕ → String
  pub timestamp : String → ℕ → ℕ
  pub astimezone : String → ℕ → ℕ

pub data AlarmError : Type 0 where
  time_out_of_range unknown_recurrence unknown_timezone no_days no_date bad_date : AlarmError

pub record AlarmSpec : Type 0 where
  pub id : String
  pub device_id : String
  pub hour : ℕ
  pub minute : ℕ
  pub recurrence : String
  pub tz : String
  pub enabled : Bool
  pub weekday_mask : ℕ
  pub date : Option String
  pub label : Option String

abbrev pub day_seconds : ℕ
day_seconds = 86400

abbrev pub late_grace : ℕ
late_grace = 600

-- a date that is given: `None` and the empty text are not
abbrev pub given_date : Option String → Option String
given_date none = none
given_date (some d) = if d == "" then none else some d

abbrev pub is_recurrence : String → Bool
is_recurrence r = r == "once" || r == "daily" || r == "weekly"

-- `(weekday_mask >> day.weekday()) & 1`
abbrev pub rings_on : ℕ → ℕ → Bool
rings_on mask day = mask / 2 ^ (day % 7) % 2 == 1

module _ (c : Calendar) where
  abbrev pub parse : Option String → Result AlarmError ℕ
  parse none = err bad_date
  parse (some d) = elim (c.fromisoformat d) [ none ↦ err bad_date | some n ↦ ok n ]

  abbrev pub check_date : Option String → Result AlarmError (Unit {0})
  check_date date = do
    raise_if (not (elim (given_date date) [ none ↦ false | some d ↦ true ])) no_date
    _ ← parse date
    ok tt

  unfoldable pub validate : AlarmSpec → Result AlarmError (Unit {0})
  validate s = do
    raise_if (ltb 23 s.hour || ltb 59 s.minute) time_out_of_range
    raise_if (not (is_recurrence s.recurrence)) unknown_recurrence
    raise_if (not (c.has_zone s.tz)) unknown_timezone
    raise_if (s.recurrence == "weekly" && s.weekday_mask % 128 == 0) no_days
    if s.recurrence == "once" then check_date s.date else ok tt

  -- The minutes from `naive` on, until one stands on the clock of its own instant.
  pub first_valid : ℕ → String → ℕ → Option ℕ
  first_valid zero tz naive = none
  first_valid (suc n) tz naive =
      let later = first_valid n tz (naive + 60) in
      if c.astimezone tz (c.timestamp tz naive) == naive then some (c.timestamp tz naive) else later

  abbrev pub naive_of : ℕ → ℕ → ℕ → ℕ
  naive_of day hour minute = day * day_seconds + hour * 3600 + minute * 60

  pub resolve_local : ℕ → ℕ → ℕ → String → ℕ
  resolve_local day hour minute tz = elim (first_valid 1440 tz (naive_of day hour minute)) [
    | none ↦ c.timestamp tz (naive_of day hour minute)
    | some t ↦ t
  ]

  abbrev pub fire_on : AlarmSpec → ℕ → ℕ
  fire_on s day = resolve_local day s.hour s.minute s.tz

  abbrev pub rings : AlarmSpec → ℕ → Bool
  rings s day = not (s.recurrence == "weekly") || rings_on s.weekday_mask day

  -- The loop over the next days.
  pub search_days : AlarmSpec → ℕ → ℕ → ℕ → Option ℕ
  search_days s after zero day = none
  search_days s after (suc n) day =
      let later = search_days s after n (day + 1) in
      if rings s day && ltb after (fire_on s day) then some (fire_on s day) else later

  abbrev pub today : AlarmSpec → ℕ → ℕ
  today s after = c.astimezone s.tz after / day_seconds

  abbrev pub fire_once : AlarmSpec → ℕ → ℕ → Option ℕ
  fire_once s after day = if ltb after (fire_on s day) then some (fire_on s day) else none

  abbrev pub once : AlarmSpec → ℕ → Option String → Result AlarmError (Option ℕ)
  once s after none = ok none
  once s after (some d) = do day ← parse (some d); ok (fire_once s after day)

  unfoldable pub next_fire : AlarmSpec → ℕ → Result AlarmError (Option ℕ)
  next_fire s after =
      if not s.enabled
      then ok none
      else if not (c.has_zone s.tz)
      then err unknown_timezone
      else if s.recurrence == "once"
      then once s after (given_date s.date)
      else ok (search_days s after 15 (today s after))

  unfoldable pub occurrence_key : AlarmSpec → ℕ → Result AlarmError String
  occurrence_key s scheduled = do
    raise_if (not (c.has_zone s.tz)) unknown_timezone
    ok (c.isoformat (c.astimezone s.tz scheduled / day_seconds))

  pub resolve_once_date : ℕ → ℕ → String → ℕ → Result AlarmError (Option String)
  resolve_once_date hour minute tz now = do
    fire ←
        next_fire
          (record {
            id = "_probe";
            device_id = "_";
            hour = hour;
            minute = minute;
            recurrence = "daily";
            tz = tz;
            enabled = true;
            weekday_mask = 0;
            date = none;
            label = none;
          })
          now
    ok (elim fire [ none ↦ none | some t ↦ some (c.isoformat (c.astimezone tz t / day_seconds)) ])

-- `0.0 <= now - scheduled <= grace`
pub within_grace : ℕ → ℕ → ℕ → Bool
within_grace scheduled now grace = leb scheduled now && leb now (scheduled + grace)
