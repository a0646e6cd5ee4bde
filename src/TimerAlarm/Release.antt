-- ===== src/TimerAlarm/Release.antt =====
-- What the alarm's task leaves when it ends (controller/em_timer_alarm.py).
use echo_voice_satellite.Prelude.{◌≡◌, ◌⊎◌, Bool, true, false, List, [], ◌∷◌, string_eq}
use echo_voice_satellite.TimerAlarm.{
  Notice, firing, takes_music, gives_music, new_current, changed, Point, ready, tells, takes, plays,
  gap, ended, Runner, Step, raises_late,
}

-- Whether the device is told that an alarm fires, and whether its music is interrupted.
abbrev pub Held : Type 0
Held = Bool × Bool

abbrev pub held_after : Held → List Notice → Held
held_after h [] = h
held_after (f, m) (firing b ∷ ns) = held_after (b, m) ns
held_after (f, m) (takes_music ∷ ns) = held_after (f, true) ns
held_after (f, m) (gives_music ∷ ns) = held_after (f, false) ns
held_after h (new_current ∷ ns) = held_after h ns
held_after h (changed ∷ ns) = held_after h ns

abbrev pub held : Runner → Held
held r = held_after (false, false) r.notices

-- While the task plays or waits it holds both, before that the firing state first, and else nothing.
abbrev pub expected : Point → Held
expected plays = (true, true)
expected gap = (true, true)
expected tells = (true, false)
expected takes = (true, false)
expected ready = (false, false)
expected ended = (false, false)

abbrev IsRight : Runner → Type 0
IsRight r = held r ≡ expected r.point

-- The music was paused, and is not given back.
abbrev pub IsLost : Runner → Type 0
IsLost r = (r.point ≡ ended) × (held r ≡ (false, true))

abbrev pub is_late : Step → Bool
is_late raises_late = true
is_late s = false

-- What the task holds at its point, and what it has lost if an exception came late.
abbrev Settled : Bool → Runner → Type 0
Settled late r = IsRight r ⊎ (IsLost r × (late ≡ true))
