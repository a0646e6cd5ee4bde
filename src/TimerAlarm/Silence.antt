-- ===== src/TimerAlarm/Silence.antt =====
-- That no alarm is left ringing (controller/em_timer_alarm.py).
use echo_voice_satellite.Prelude.{
  ℕ, ◌≡◌, ◌≢◌, inl, inr, refl, ap, Bool, true, false, none, [], ◌∷◌, ◌++◌, leb, string_eq, arith,
  Bool-cases, Option-cases,
}
use echo_voice_satellite.Timers.{dismiss_current, dismiss_all}
use echo_voice_satellite.TimerAlarm.{
  takes_music, changed, Point, ready, tells, takes, plays, gap, ended, Runner, unreadable, empty,
  loaded, loop_head, begin, interrupted, after_playback, Step, starts, told, took, played, waited,
  raises, raises_late, others, cancels, step_at, step,
}

abbrev pub is_raise : Step → Bool
is_raise raises = true
is_raise raises_late = true
is_raise s = false

abbrev is_ended : Point → Bool
is_ended ended = true
is_ended p = false

-- Behind a step that is no exception: the task goes on, is cancelled, or rings nothing any more.
abbrev IsSilent : Runner → Type 0
IsSilent r = is_ended r.point ≡ true → r.cancel ≡ false → r.session.current ≡ none

loop-IsSilent : (now : ℕ) (r : Runner) → IsSilent (loop_head now r)
unfolding loop_head
loop-IsSilent now r = elim (Option-cases r.session.current) [
  | inl q ↦ rw (q, loop_head) (λ e c. q)
  | inr (t, q) ↦ rw (q, loop_head) (λ e c. ground arith)
]

not-ended : (p : Point) → p ≢ ended → is_ended p ≡ false
not-ended ended n = absurd (n refl)
not-ended ready n = refl
not-ended tells n = refl
not-ended takes n = refl
not-ended plays n = refl
not-ended gap n = refl

step-IsSilent :
    (p : Point) (s : Step) (r : Runner)
    → is_raise s ≡ false
    → r.point ≡ p
    → is_ended p ≡ false
    → IsSilent (step_at p s r)
unfolding step_at begin interrupted after_playback dismiss_all
step-IsSilent p (others s) r n q go = λ e c. ground (arith, ap is_ended q)
step-IsSilent p cancels r n q go = λ e c. cc
step-IsSilent ready (starts true loaded) r n q go = λ e c. cc
step-IsSilent ready (starts true unreadable) r n q go = λ e c. refl
step-IsSilent ready (starts true empty) r n q go = λ e c. refl
step-IsSilent ready (starts false sound) r n q go = λ e c. refl
step-IsSilent tells told r n q go = λ e c. cc
step-IsSilent takes (took now) r n q go =
    loop-IsSilent now (record r { notices = r.notices ++ takes_music ∷ [] })
step-IsSilent plays (played now) r n q go =
    let next : Runner = record r {
      session = (dismiss_current r.session).0;
      notices = r.notices ++ changed ∷ [];
    } in
    let advanced = loop-IsSilent now next in
    elim (Bool-cases r.cancel) [
      | inl c ↦ rw (c, after_playback) (λ e c'. cc)
      | inr c ↦ elim (Bool-cases (leb r.deadline now)) [
        | inl late ↦ rw (c, late, after_playback) (rw c at advanced)
        | inr early ↦ rw (c, early, after_playback) (λ e c'. cc)
      ]
    ]
step-IsSilent gap (waited now) r n q go = loop-IsSilent now r
step-IsSilent p raises r n q go = cc
step-IsSilent p raises_late r n q go = cc
step-IsSilent p s r n q go = λ e c. ground (arith, ap is_ended q)

-- The task never ends with an alarm left ringing: of a task that goes on, a step that is neither an exception
-- nor the task's cancellation either lets it go on, or the cancel event is set, or no alarm is current any more.
pub step-rings :
    (s : Step) (r : Runner)
    → is_raise s ≡ false
    → r.point ≢ ended
    → (step s r).point ≡ ended
    → (step s r).cancel ≡ false
    → (step s r).session.current ≡ none
unfolding step
step-rings s r n go e c = step-IsSilent r.point s r n refl (not-ended r.point go) (ap is_ended e) c

-- An exception in a playback ends the task with the session as it is: the alarm that was current stays so,
-- with no task that would dismiss it or tell of it.
pub raise-keeps :
    (r : Runner)
    → r.point ≡ plays
    → ((step raises r).point ≡ ended) × ((step raises r).session ≡ r.session)
unfolding step step_at
raise-keeps r q = rw (q, step, step_at) (refl, refl)
