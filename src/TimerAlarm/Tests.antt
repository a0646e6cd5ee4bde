-- ===== src/TimerAlarm/Tests.antt =====
-- The laws of `TimerAlarm` at a session with two alarms.
use echo_voice_satellite.Prelude.{
  ◌≡◌, refl, true, false, none, some, List, [], ◌∷◌, String, string_eq,
}
use echo_voice_satellite.Prelude.Int.{pos}
use echo_voice_satellite.Timers.{Session, TimerRecord, new_session, dismiss_current}
use echo_voice_satellite.TimerAlarm.{
  Runner, new_runner, plays, ended, loaded, Step, starts, told, took, played, waited, raises,
  raises_late, cancels, step, steps, step_at, begin, interrupted, loop_head, after_playback,
}
use echo_voice_satellite.TimerAlarm.Release.{held}
use echo_voice_satellite.TimerAlarm.Silence.{step-rings, raise-keeps}

abbrev timer : String → TimerRecord
timer id = record {
  timer_id = id;
  name = none;
  total_seconds = pos 60;
  seconds_left = pos 0;
  is_active = false;
  ha_device_id = none;
  received_at = none;
}

abbrev pasta : TimerRecord
pasta = timer "pasta"

abbrev two : Session
two = record new_session { current = some pasta; queue = timer "eggs" ∷ [] }

abbrev story : List Step
story = starts true loaded ∷ told ∷ took 10 ∷ played 14 ∷ waited 15 ∷ cancels ∷ played 19 ∷ []

-- A cancellation that reaches the interruption when the music is paused: it is not given back.
music_lost :
    held (steps (starts true loaded ∷ told ∷ raises_late ∷ []) (new_runner two)) ≡ (false, true)
unfolding steps step step_at begin
music_lost = refl

stopped : (steps story (new_runner two)).point ≡ ended
unfolding steps step step_at begin interrupted loop_head after_playback
stopped = refl

abbrev ringing : Runner
ringing = record (new_runner two) { point = plays; current_id = some "pasta"; deadline = 130 }

raise-keeps_example : ((step raises ringing).point ≡ ended) × ((step raises ringing).session ≡ two)
raise-keeps_example = raise-keeps ringing refl

-- The user dismisses the only alarm while it plays, and the playback ends.
abbrev dismissed : Runner
dismissed = record ringing { session = new_session; deadline = 0 }

over : (step (played 131) dismissed).point ≡ ended
unfolding step step_at after_playback loop_head dismiss_current
over = refl

uncancelled : (step (played 131) dismissed).cancel ≡ false
unfolding step step_at after_playback loop_head dismiss_current
uncancelled = refl

step-rings_example : (step (played 131) dismissed).session.current ≡ none
step-rings_example = step-rings (played 131) dismissed refl (λ e. cc) over uncancelled
