-- ===== src/TimerAlarm/Timeout.antt =====
-- How long an alarm that nobody answers rings (controller/em_timer_alarm.py).
use echo_voice_satellite.Prelude.{
  ℕ, ◌+◌, ◌≤◌, ◌≡◌, ◌≢◌, ◌⊎◌, inl, inr, refl, ap, ◌∙◌, subst, true, false, none, some, [], ◌∷◌,
  ◌++◌, leb, string_eq, eq_iff, arith, List-cases,
}
use echo_voice_satellite.Timers.{TimerRecord, dismiss_current, pop, line_of}
use echo_voice_satellite.Timers.Line.{Distinct, line}
use echo_voice_satellite.TimerAlarm.{
  changed, plays, ended, Runner, max_ring, is_id, loop_head, after_playback, played, step_at, step,
}

abbrev pub Advanced : ℕ → TimerRecord → Runner → Type 0
Advanced now t r =
    ((r.point ≡ ended) × (r.session.current ≡ none))
    ⊎ ((u : TimerRecord) × (r.session.current ≡ some u)
        × (u.timer_id ≢ t.timer_id)
        × (r.point ≡ plays)
        × (r.deadline ≡ now + max_ring))

late_step :
    (now : ℕ) (t : TimerRecord) (r : Runner)
    → r.point ≡ plays
    → r.cancel ≡ false
    → r.session.current ≡ some t
    → r.deadline ≤ now
    → step (played now) r
      ≡ loop_head now (record r {
        session = record r.session {
          current = (pop r.session.queue).0;
          queue = (pop r.session.queue).1;
        };
        notices = r.notices ++ changed ∷ [];
      })
unfolding step step_at after_playback dismiss_current
late_step now t r p c q late =
    let l : leb r.deadline now ≡ true = ground arith in
    rw (p, c, l, q, step, step_at, after_playback, dismiss_current) refl

-- An alarm that nobody answers rings until the first playback that ends at its deadline or later: it is then
-- dismissed, and either the next one of the line, another timer, begins to ring with a deadline of its own, or
-- none is left and the task ends. The alarm rings under its own deadline, and no timer is in the line twice.
pub timeout-advances :
    (now : ℕ) (t : TimerRecord) (r : Runner)
    → r.point ≡ plays
    → r.cancel ≡ false
    → r.session.current ≡ some t
    → r.current_id ≡ some t.timer_id
    → Distinct (line r.session)
    → r.deadline ≤ now
    → let r' = step (played now) r in Advanced now t r' × (line r'.session ≡ r.session.queue)
unfolding step step_at after_playback loop_head dismiss_current
timeout-advances now t r p c q i d late = elim (List-cases r.session.queue) [
  | inl z ↦ rw (late_step now t r p c q late, z) (inl (refl, refl), refl)
  | inr (u, us, z) ↦
      let same : line r.session ≡ t ∷ u ∷ us =
        ap (λ o. line_of o r.session.queue) q ∙ ap (λ k. t ∷ k) z in
      let once : Distinct (t ∷ u ∷ us) = subst (λ k. Distinct k) same d in
      let other : u.timer_id ≢ t.timer_id = ground (arith, once, eq_iff u.timer_id t.timer_id) in
      let new : is_id r.current_id u.timer_id ≡ false =
        ground (arith, i, eq_iff t.timer_id u.timer_id) in
      rw (late_step now t r p c q late, z, c, new) (inr (u, refl, other, refl, refl), refl)
]
