-- ===== src/Alarms/Tests.antt =====
-- The laws of `Alarms` at concrete alarms, in a zone whose clock is that of the instants.
use echo_voice_satellite.Prelude.{
  ℕ, ◌<◌, ◌≡◌, ◌≢◌, refl, String, true, none, some, [], ◌∷◌, arith, eq_iff, ◌==◌, string_eq,
}
use echo_voice_satellite.Prelude.Result.{ok}
use echo_voice_satellite.Alarms.{
  Calendar, AlarmSpec, validate, next_fire, occurrence_key, today, fire_on, resolve_local,
  first_valid, search_days,
}
use echo_voice_satellite.Alarms.NextFire.{resolve_existing, next_fire_repeats, next_fire_after}
use echo_voice_satellite.Alarms.Scheduler.{Row, passes}
use echo_voice_satellite.Alarms.Scheduler.Fires.{Ascends, at_times, passes-Ascends}

abbrev utc : Calendar
utc = record {
  has_zone = λ tz. tz == "UTC";
  fromisoformat = λ d. none;
  isoformat = λ day. "monday";
  timestamp = λ tz naive. naive;
  astimezone = λ tz t. t;
}

-- 07:00 on Mondays to Fridays
abbrev work : AlarmSpec
work = record {
  id = "a1";
  device_id = "office";
  hour = 7;
  minute = 0;
  recurrence = "weekly";
  tz = "UTC";
  enabled = true;
  weekday_mask = 31;
  date = none;
  label = none;
}

not_once : work.recurrence ≢ "once"
not_once = ground (arith, eq_iff work.recurrence "once")

next_fire_after_example : 30000 < 111600
unfolding next_fire search_days resolve_local first_valid
next_fire_after_example = next_fire_after utc work 30000 111600 refl

later_days : (d : ℕ) → today utc work 30000 < d → 30000 < fire_on utc work d
later_days d h = rw (resolve_existing utc d 7 0 "UTC" refl) (omega arith)

next_fire_repeats_example : (t : ℕ) × (next_fire utc work 30000 ≡ ok (some t))
next_fire_repeats_example =
    next_fire_repeats utc work 30000 refl (ground (arith, eq_iff "UTC" "UTC")) not_once
      (λ h. omega arith) later_days

abbrev timer_id : String → String → String
timer_id id key = key

abbrev row : Row
row = record { spec = work; next_fire_utc = some 111600; last_fired = none }

work-occurrence : occurrence_key utc work 111600 ≡ ok "monday"
unfolding occurrence_key
work-occurrence = ground (arith, eq_iff "UTC" "UTC")

work-valid : validate utc work ≡ ok tt
unfolding validate
work-valid = ground (arith, eq_iff "UTC" "UTC", eq_iff "weekly" "weekly", eq_iff "weekly" "once")

passes-Ascends_example :
    Ascends utc 600 timer_id 111600
      (passes utc 600 timer_id row
        (at_times utc 600 timer_id (111590 ∷ 111610 ∷ 111605 ∷ 200000 ∷ []))).1
passes-Ascends_example =
    passes-Ascends utc 600 timer_id row 111600 (111590 ∷ 111610 ∷ 111605 ∷ 200000 ∷ []) work-valid
      refl
