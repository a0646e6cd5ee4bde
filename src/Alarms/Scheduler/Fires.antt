-- ===== src/Alarms/Scheduler/Fires.antt =====
-- When the scheduler of controller/em_alarm_scheduler.py fires an alarm.
use echo_voice_satellite.Prelude.{
  ℕ, ◌+◌, ◌≤◌, ◌≡◌, ◌≢◌, ◌↔◌, refl, String, Bool, true, false, Bool-cases, Option, none, some, List,
  [], ◌∷◌, ltb, ◌⊎◌, inl, inr, arith, string_eq, eq_iff,
}
use echo_voice_satellite.Prelude.Result.{Result, ok, err}
use echo_voice_satellite.Alarms.{
  Calendar, validate, AlarmError, AlarmSpec, next_fire, occurrence_key, within_grace,
}
use echo_voice_satellite.Alarms.NextFire.{next_fire_after, validate_computes}
use echo_voice_satellite.Alarms.Scheduler.{
  Row, Fire, is_key, advance, fire_of, handle, reconcile_alarm, passes,
}

within_grace_iff :
    (due now grace : ℕ) → (within_grace due now grace ≡ true) ↔ ((due ≤ now) × (now ≤ due + grace))
unfolding within_grace
within_grace_iff due now grace = ground arith

is_key_iff : (o : Option String) (key : String) → (is_key o key ≡ true) ↔ (o ≡ some key)
is_key_iff none key = ground arith
is_key_iff (some k) key = ground (arith, eq_iff k key)

module _ (c : Calendar) (grace : ℕ) (timer_id : String → String → String) where
  -- An alarm that is due is fired exactly if it is not late by more than the grace and was not fired for its
  -- occurrence; no other alarm is.
  pub reconcile_fires :
      (r : Row) (due now : ℕ) (fired : Bool) (key : String)
      → r.next_fire_utc ≡ some due
      → occurrence_key c r.spec due ≡ ok key
      → ((reconcile_alarm c grace timer_id r now fired).1 ≡ fire_of c grace timer_id r key due ∷ [])
        ↔ ((due ≤ now) × (now ≤ due + grace) × (r.last_fired ≢ some key))
  unfolding reconcile_alarm
  reconcile_fires r due now fired key q k =
      let given = is_key_iff r.last_fired key in
      let late = within_grace_iff due now grace in
      elim (Bool-cases (ltb now due)) [
        | inl early ↦
            rw (q, reconcile_alarm, k, early) (λ h. ground (arith, h), λ h. ground (arith, early))
        | inr now_due ↦
            rw (q, reconcile_alarm, k, now_due)
              (λ h. ground (arith, given, late, now_due), λ h. ground (arith, given, late))
      ]

  -- A spent alarm: disabled, with no next time.
  abbrev pub IsSpent : Row → Type 0
  IsSpent r = (r.spec.enabled ≡ false) × (r.next_fire_utc ≡ none)

  -- What is still to be fired is due at `b` or later.
  abbrev pub IsFrom : ℕ → Row → Type 0
  IsFrom b r =
      IsSpent r
      ⊎ (((b ≡ 0) × (r.next_fire_utc ≡ none))
          ⊎ ((due : ℕ) × (r.next_fire_utc ≡ some due) × (b ≤ due)))

  -- The alarm's schedule can be computed.
  abbrev pub HasSchedule : AlarmSpec → Type 0
  HasSchedule s =
      (after : ℕ)
      → (next_fire c s after ≡ ok none) ⊎ ((t : ℕ) × (next_fire c s after ≡ ok (some t)))

  abbrev pub Ascends : ℕ → List Fire → Type 0
  Ascends b [] = Unit
  Ascends b (f ∷ fs) = (b ≤ f.due) × Ascends (f.due + 1) fs

  advance-IsFrom :
      (r : Row) (key : String) (floor : ℕ)
      → HasSchedule r.spec
      → IsFrom (floor + 1) (advance c grace timer_id r key (next_fire c r.spec floor))
  advance-IsFrom r key floor h = elim (h floor) [
    | inl q ↦ rw q (inl (refl, refl))
    | inr (t, q) ↦ rw q (inr (inr (t, refl, omega (arith, next_fire_after c r.spec floor t q))))
  ]

  weaken : (r : Row) (a b : ℕ) → b ≤ a → IsFrom a r → IsFrom b r
  weaken r a b le (inl spent) = inl spent
  weaken r a b le (inr (inl (z, q))) = inr (inl (omega arith, q))
  weaken r a b le (inr (inr (due, q, lt))) = inr (inr (due, q, omega arith))

  -- What a pass does to an alarm whose next fires are due from `b` on.
  abbrev Handled : ℕ → Row × List Fire → Type 0
  Handled b (r, calls) =
      HasSchedule r.spec
      × (((calls ≡ []) × IsFrom b r)
          ⊎ ((f : Fire) × (calls ≡ f ∷ []) × (b ≤ f.due) × IsFrom (f.due + 1) r))

  advance-HasSchedule :
      (r : Row) (key : String) (floor : ℕ)
      → HasSchedule r.spec
      → HasSchedule (advance c grace timer_id r key (next_fire c r.spec floor)).spec
  unfolding next_fire
  advance-HasSchedule r key floor h = elim (h floor) [
    | inl q ↦ rw q (λ after. inl refl)
    | inr (t, q) ↦ rw q h
  ]

  handle-Handled :
      (r : Row) (due now b : ℕ) (key : Result AlarmError String)
      → HasSchedule r.spec
      → IsFrom b r
      → b ≤ due
      → due ≤ now
      → Handled b (handle c grace timer_id r due now true key)
  handle-Handled r due now b (err e) h f le le' = (h, inl (refl, f))
  handle-Handled r due now b (ok key) h f le le' = elim (Bool-cases (within_grace due now grace)) [
    | inl late ↦ elim (Bool-cases (is_key r.last_fired key)) [
      | inl done ↦
          rw (late, done)
            (
              advance-HasSchedule r key due h,
              inl (
                refl,
                weaken (advance c grace timer_id r key (next_fire c r.spec due)) (due + 1) b
                    (omega arith) (advance-IsFrom r key due h),
              ),
            )
      | inr fresh ↦
          rw (late, fresh)
            (
              advance-HasSchedule r key due h,
              inr (fire_of c grace timer_id r key due, refl, le, advance-IsFrom r key due h),
            )
    ]
    | inr missed ↦ elim (Bool-cases (is_key r.last_fired key)) [
      | inl done ↦
          rw (missed, done)
            (
              advance-HasSchedule r key now h,
              inl (
                refl,
                weaken (advance c grace timer_id r key (next_fire c r.spec now)) (now + 1) b
                    (omega arith) (advance-IsFrom r key now h),
              ),
            )
      | inr fresh ↦
          rw (missed, fresh)
            (
              advance-HasSchedule r key now h,
              inl (
                refl,
                weaken (advance c grace timer_id r key (next_fire c r.spec now)) (now + 1) b
                    (omega arith) (advance-IsFrom r key now h),
              ),
            )
    ]
  ]

  pass-Handled :
      (r : Row) (now b : ℕ)
      → HasSchedule r.spec
      → IsFrom b r
      → Handled b (reconcile_alarm c grace timer_id r now true)
  unfolding reconcile_alarm next_fire
  pass-Handled r now b h (inl (off, q)) =
      let spent : next_fire c r.spec now ≡ ok none = ground arith in
      rw (q, reconcile_alarm, spent) (h, inl (refl, inl (off, refl)))
  pass-Handled r now b h (inr (inl (z, q))) = elim (h now) [
    | inl nothing ↦ rw (q, reconcile_alarm, nothing) (h, inl (refl, inr (inl (z, refl))))
    | inr (t, next) ↦
        rw (q, reconcile_alarm, next) (h, inl (refl, inr (inr (t, refl, omega arith))))
  ]
  pass-Handled r now b h (inr (inr (due, q, le))) = elim (Bool-cases (ltb now due)) [
    | inl early ↦ rw (q, reconcile_alarm, early) (h, inl (refl, inr (inr (due, q, le))))
    | inr on_time ↦
        rw (q, reconcile_alarm, on_time)
          (handle-Handled r due now b (occurrence_key c r.spec due) h (inr (inr (due, q, le))) le
            (ground (arith, on_time)))
  ]

  -- Passes at the given times, with no fire that raises.
  abbrev pub at_times : List ℕ → List (ℕ × Bool)
  at_times [] = []
  at_times (now ∷ rest) = (now, true) ∷ at_times rest

  due_from :
      (r : Row) (b : ℕ) (times : List ℕ)
      → HasSchedule r.spec
      → IsFrom b r
      → Ascends b (passes c grace timer_id r (at_times times)).1
  unfolding passes
  due_from r b [] h f = tt
  due_from r b (now ∷ rest) h f =
      let r' : Row = (reconcile_alarm c grace timer_id r now true).0 in
      let (h', what) = pass-Handled r now b h f in
      elim what [
        | inl (q, f') ↦ rw (q, passes) (due_from r' b rest h' f')
        | inr (call, q, le, f') ↦ rw (q, passes) (le, due_from r' (call.due + 1) rest h' f')
      ]

  -- However the clock steps between the passes of the scheduler, the times for which it fires an alarm
  -- strictly ascend from the alarm's next time on: none is fired twice, and none before another. The
  -- alarm is valid, and the fires do not raise.
  pub passes-Ascends :
      (r : Row) (due : ℕ) (times : List ℕ)
      → validate c r.spec ≡ ok tt
      → r.next_fire_utc ≡ some due
      → Ascends due (passes c grace timer_id r (at_times times)).1
  passes-Ascends r due times v q =
      due_from r due times (λ after. validate_computes c r.spec after v)
        (inr (inr (due, q, omega arith)))
