-- ===== src/TimerAlarm.antt =====
-- controller/em_timer_alarm.py: the task that rings a device's finished timers (`TimerAlarmRunner._run`), as a
-- machine whose steps go from one await that can last to the next. Other tasks change the session and set the
-- cancel event between them. Times are seconds; what a callback does is a `Notice`, which stands where its await begins, but
-- for `em_player.interrupt`, which may raise before or after it has paused the music. An exception in the `finally`
-- blocks themselves is not modelled.
pub mod Release
pub mod Silence
pub mod Timeout
mod Tests
use echo_voice_satellite.Prelude.{
  ℕ, ◌+◌, String, Bool, true, false, Option, none, some, List, [], ◌∷◌, ◌++◌, leb, if◌then◌else◌,
  ◌==◌, string_eq,
}
use echo_voice_satellite.Timers.{Session, TimerRecord, dismiss_current, dismiss_all}

abbrev pub max_ring : ℕ
max_ring = 120

-- `on_state`, `em_player.interrupt` and `resume_interrupted`, `on_current` and `on_changed`.
pub data Notice : Type 0 where
  firing : Bool → Notice
  takes_music gives_music new_current changed : Notice

-- Not started, in `on_state(True)`, in `em_player.interrupt`, in the playback, in the gap between two, ended.
pub data Point : Type 0 where
  ready tells takes plays gap ended : Point

pub record Runner : Type 0 where
  pub session : Session
  pub cancel : Bool
  pub current_id : Option String
  pub deadline : ℕ
  pub point : Point
  pub notices : List Notice

abbrev pub new_runner : Session → Runner
new_runner s = record {
  session = s;
  cancel = false;
  current_id = none;
  deadline = 0;
  point = ready;
  notices = [];
}

-- What `_load_sound` comes to.
pub data Sound : Type 0 where
  unreadable empty loaded : Sound

-- the `finally` blocks, once the music is interrupted
abbrev pub finish : Runner → Runner
finish r = record r { point = ended; notices = r.notices ++ gives_music ∷ firing false ∷ [] }

-- the `finally` blocks before that
abbrev pub finish_early : Runner → Runner
finish_early r = record r { point = ended; notices = r.notices ++ firing false ∷ [] }

abbrev pub is_id : Option String → String → Bool
is_id none s = false
is_id (some t) s = t == s

abbrev pub ring_timer : ℕ → Runner → TimerRecord → Runner
ring_timer now r t =
    if is_id r.current_id t.timer_id then record r { point = plays } else record r {
      point = plays;
      current_id = some t.timer_id;
      deadline = now + max_ring;
      notices = r.notices ++ new_current ∷ [];
    }

-- the head of the loop
unfoldable pub loop_head : ℕ → Runner → Runner
loop_head now r = elim r.session.current [
  | none ↦ finish r
  | some t ↦ if r.cancel then finish r else ring_timer now r t
]

abbrev pub give_up : Runner → Runner
give_up r = record r {
  session = (dismiss_all r.session).0;
  point = ended;
  notices = r.notices ++ changed ∷ [];
}

abbrev pub is_loaded : Sound → Bool
is_loaded loaded = true
is_loaded s = false

-- up to `on_state(True)`
unfoldable pub begin : Bool → Sound → Runner → Runner
begin connected sound r =
    let go = record r { point = tells; notices = r.notices ++ firing true ∷ [] } in
    if connected then (if is_loaded sound then go else give_up r) else give_up r

-- behind `em_player.interrupt`
unfoldable pub interrupted : ℕ → Runner → Runner
interrupted now r = loop_head now (record r { notices = r.notices ++ takes_music ∷ [] })

-- behind a playback
unfoldable pub after_playback : ℕ → Runner → Runner
after_playback now r =
    let advanced =
      loop_head now (record r {
        session = (dismiss_current r.session).0;
        notices = r.notices ++ changed ∷ [];
      }) in
    if r.cancel then finish r else if leb r.deadline now then advanced else record r { point = gap }

-- A step of the task, or of another: the start, with whether the device is connected and what the sound is; the
-- end of `on_state(True)`, of the interruption, of a playback or of a gap; an exception in any of these, or the
-- cancellation of the task, and one in the interruption when the music is paused already; a change of the session;
-- the cancel event.
pub data Step : Type 0 where
  starts : Bool → Sound → Step
  told : Step
  took : ℕ → Step
  played : ℕ → Step
  waited : ℕ → Step
  raises : Step
  raises_late : Step
  others : Session → Step
  cancels : Step

pub step_at : Point → Step → Runner → Runner
step_at p (others s) r = record r { session = s }
step_at p cancels r = record r { cancel = true }
step_at ready (starts connected sound) r = begin connected sound r
step_at tells told r = record r { point = takes }
step_at takes (took now) r = interrupted now r
step_at plays (played now) r = after_playback now r
step_at gap (waited now) r = loop_head now r
step_at ready raises r = record r { point = ended }
step_at tells raises r = finish_early r
step_at takes raises r = finish_early r
step_at takes raises_late r = finish_early (record r { notices = r.notices ++ takes_music ∷ [] })
step_at plays raises r = finish r
step_at gap raises r = finish r
step_at p s r = r

unfoldable pub step : Step → Runner → Runner
unfolding step_at
step s r = step_at r.point s r

unfoldable pub steps : List Step → Runner → Runner
steps [] r = r
steps (s ∷ ss) r = steps ss (step s r)
