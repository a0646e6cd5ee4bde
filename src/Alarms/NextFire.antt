-- ===== src/Alarms/NextFire.antt =====
-- The next time an alarm fires (controller/em_alarms.py).
use echo_voice_satellite.Prelude.{
  ℕ, zero, suc, ◌+◌, ◌-◌, ◌/◌, ◌%◌, ◌^◌, ◌≤◌, ◌<◌, ◌≡◌, ◌≢◌, refl, sym, subst, String, Bool, true,
  false, Bool-cases, Option-cases, Option, none, some, ◌&&◌, ltb, ◌⊎◌, inl, inr, arith, eq_iff,
  ◌==◌, string_eq, nat_eq,
}
use echo_voice_satellite.Prelude.Result.{Result, ok}
use echo_voice_satellite.Alarms.{
  Calendar, AlarmError, validate, check_date, AlarmSpec, rings_on, given_date, fire_on, first_valid,
  naive_of, resolve_local, rings, search_days, today, once, fire_once, next_fire,
}

first_or_later : (a b : ℕ) → a ≤ b → (a ≡ b) ⊎ (a + 1 ≤ b)
first_or_later a b h = ground arith

module _ (c : Calendar) (s : AlarmSpec) (after : ℕ) where
  -- A day from `day` on on which the alarm rings at `t`, behind the instant, as on no day before it.
  abbrev pub IsNext : ℕ → ℕ → ℕ → Type 0
  IsNext day t d =
      (after < t)
      × (day ≤ d)
      × (rings c s d ≡ true)
      × (t ≡ fire_on c s d)
      × ((e : ℕ) → day ≤ e → e < d → rings c s e ≡ true → fire_on c s e ≤ after)

  abbrev hits : ℕ → Bool
  hits day = rings c s day && ltb after (fire_on c s day)

  missed : (day : ℕ) → hits day ≡ false → rings c s day ≡ true → fire_on c s day ≤ after
  missed day h r = ground arith

  search_found :
      (n day t : ℕ)
      → search_days c s after n day ≡ some t
      → (d : ℕ) × (d < day + n) × IsNext day t d
  unfolding search_days
  search_found zero day t h = let wrong : ⊥ = ground arith in elim wrong [ ]
  search_found (suc n) day t h = elim (Bool-cases (hits day)) [
    | inl y ↦
        let e : fire_on c s day ≡ t = ground (arith, y) in
        (
          day,
          omega arith,
          (ground arith, omega arith, ground arith, sym e, λ e' le lt r. omega arith),
        )
    | inr miss ↦
        let rest : search_days c s after n (day + 1) ≡ some t = ground (arith, miss) in
        let (d, lt, (a, le, r, e, before)) = search_found n (day + 1) t rest in
        (
          d,
          omega arith,
          (
            a,
            omega arith,
            r,
            e,
            λ e' le' lt' r'. elim (first_or_later day e' le') [
              | inl q ↦
                  subst (λ x. fire_on c s x ≤ after) q
                    (missed day miss (subst (λ x. rings c s x ≡ true) (sym q) r'))
              | inr more ↦ before e' more lt' r'
            ],
          ),
        )
  ]

  search_none :
      (n day e : ℕ)
      → search_days c s after n day ≡ none
      → day ≤ e
      → e < day + n
      → rings c s e ≡ true
      → fire_on c s e ≤ after
  unfolding search_days
  search_none zero day e h le lt r = omega arith
  search_none (suc n) day e h le lt r = elim (Bool-cases (hits day)) [
    | inl y ↦ let wrong : ⊥ = ground (arith, y) in elim wrong [ ]
    | inr miss ↦
        let rest : search_days c s after n (day + 1) ≡ none = ground (arith, miss) in
        elim (first_or_later day e le) [
          | inl q ↦
              subst (λ x. fire_on c s x ≤ after) q
                (missed day miss (subst (λ x. rings c s x ≡ true) (sym q) r))
          | inr more ↦ search_none n (day + 1) e rest more (omega arith) r
        ]
  ]

  -- An alarm that is not for once fires next on the first day from today on which it rings and its time is
  -- still to come, within fifteen days, and at that day's time.
  pub next_fire-IsNext :
      (t : ℕ)
      → s.recurrence ≢ "once"
      → next_fire c s after ≡ ok (some t)
      → (d : ℕ) × (d < today c s after + 15) × IsNext (today c s after) t d
  unfolding next_fire
  next_fire-IsNext t r h =
      search_found 15 (today c s after) t (ground (arith, eq_iff s.recurrence "once"))

last_bit :
    (mask : ℕ)
    → mask % 128 ≢ 0
    → rings_on mask 0 ≡ false
    → rings_on mask 1 ≡ false
    → rings_on mask 2 ≡ false
    → rings_on mask 3 ≡ false
    → rings_on mask 4 ≡ false
    → rings_on mask 5 ≡ false
    → mask / 2 ^ 6 % 2 ≡ 1
last_bit mask h n0 n1 n2 n3 n4 n5 = ground arith

-- Some bit of a mask of seven days is set.
set_bit : (mask : ℕ) → mask % 128 ≢ 0 → (w : ℕ) × (w < 7) × (mask / 2 ^ w % 2 ≡ 1)
set_bit mask h = elim (Bool-cases (rings_on mask 0)) [
  | inl y ↦ (0, omega arith, ground (arith, y))
  | inr n0 ↦ elim (Bool-cases (rings_on mask 1)) [
    | inl y ↦ (1, omega arith, ground (arith, y))
    | inr n1 ↦ elim (Bool-cases (rings_on mask 2)) [
      | inl y ↦ (2, omega arith, ground (arith, y))
      | inr n2 ↦ elim (Bool-cases (rings_on mask 3)) [
        | inl y ↦ (3, omega arith, ground (arith, y))
        | inr n3 ↦ elim (Bool-cases (rings_on mask 4)) [
          | inl y ↦ (4, omega arith, ground (arith, y))
          | inr n4 ↦ elim (Bool-cases (rings_on mask 5)) [
            | inl y ↦ (5, omega arith, ground (arith, y))
            | inr n5 ↦ (6, omega arith, last_bit mask h n0 n1 n2 n3 n4 n5)
          ]
        ]
      ]
    ]
  ]
]

weekday_soon : (day w : ℕ) → w < 7 → (e : ℕ) × (day < e) × (e < day + 15) × (e % 7 ≡ w)
weekday_soon day w h =
    (day + 1 + (w + 7 - (day + 1) % 7) % 7, omega arith, omega arith, omega arith)

module _ (c : Calendar) (s : AlarmSpec) (after : ℕ) where
  -- Within the coming week there is a day on which the alarm rings.
  rings_soon :
      (day : ℕ)
      → (s.recurrence ≡ "weekly" → s.weekday_mask % 128 ≢ 0)
      → (e : ℕ) × (day < e) × (e < day + 15) × (rings c s e ≡ true)
  rings_soon day h = elim (Bool-cases (s.recurrence == "weekly")) [
    | inr other ↦ (day + 1, omega arith, omega arith, ground (arith, other))
    | inl weekly ↦
        let (w, lt, bit) = set_bit s.weekday_mask (h ((eq_iff s.recurrence "weekly").0 weekly)) in
        let (e, a, b, q) = weekday_soon day w lt in
        let on : s.weekday_mask / 2 ^ (e % 7) % 2 ≡ 1 =
          subst (λ x. s.weekday_mask / 2 ^ x % 2 ≡ 1) (sym q) bit in
        (e, a, b, ground (arith, on))
  ]

  -- An enabled alarm that repeats always has a next time: on a zone that is known, with a day selected if it
  -- is weekly, and if what a later day's wall time resolves to is a later instant.
  pub next_fire_repeats :
      s.enabled ≡ true
      → c.has_zone s.tz ≡ true
      → s.recurrence ≢ "once"
      → (s.recurrence ≡ "weekly" → s.weekday_mask % 128 ≢ 0)
      → ((d : ℕ) → today c s after < d → after < fire_on c s d)
      → (t : ℕ) × (next_fire c s after ≡ ok (some t))
  unfolding next_fire
  next_fire_repeats on zone rep days later =
      let day = today c s after in
      elim (Option-cases (search_days c s after 15 day)) [
        | inl nothing ↦
            let (e, a, b, r) = rings_soon day days in
            let wrong : ⊥ =
              omega (arith, later e a, search_none c s after 15 day e nothing (omega arith) b r) in
            elim wrong [ ]
        | inr (t, q) ↦ (t, ground (arith, q, eq_iff s.recurrence "once"))
      ]

  once_after : (o : Option String) (t : ℕ) → once c s after o ≡ ok (some t) → after < t
  once_after none t h = let wrong : ⊥ = ground arith in elim wrong [ ]
  once_after (some d) t h = elim (Option-cases (c.fromisoformat d)) [
    | inl bad ↦ let wrong : ⊥ = ground (arith, bad) in elim wrong [ ]
    | inr (day, q) ↦ ground (arith, q)
  ]

  -- Any next time of an alarm is strictly after the instant that it was asked for.
  pub next_fire_after : (t : ℕ) → next_fire c s after ≡ ok (some t) → after < t
  unfolding next_fire
  next_fire_after t h = elim (Bool-cases (s.recurrence == "once")) [
    | inl y ↦ once_after (given_date s.date) t (ground (arith, y))
    | inr n ↦ (search_found c s after 15 (today c s after) t (ground (arith, n))).2.0
  ]

  -- The next time can be computed, and there is one or not.
  abbrev IsComputed : Result AlarmError (Option ℕ) → Type 0
  IsComputed r = (r ≡ ok none) ⊎ ((t : ℕ) × (r ≡ ok (some t)))

  ok-IsComputed : (o : Option ℕ) → IsComputed (ok o)
  ok-IsComputed none = inl refl
  ok-IsComputed (some t) = inr (t, refl)

  once_given :
      (d : String) (day : ℕ)
      → c.fromisoformat d ≡ some day
      → once c s after (some d) ≡ ok (fire_once c s after day)
  once_given d day q = ground (arith, q)

  once-IsComputed :
      (o : Option String) → check_date c o ≡ ok tt → IsComputed (once c s after (given_date o))
  once-IsComputed none v = inl refl
  once-IsComputed (some d) v = elim (Bool-cases (d == "")) [
    | inl y ↦ rw y (inl refl)
    | inr n ↦ elim (Option-cases (c.fromisoformat d)) [
      | inl bad ↦ let wrong : ⊥ = ground (arith, bad, n) in elim wrong [ ]
      | inr (day, q) ↦
          rw n
            (subst IsComputed (sym (once_given d day q)) (ok-IsComputed (fire_once c s after day)))
    ]
  ]

  -- The next time of a valid alarm can be computed: it is none, or an instant.
  pub validate_computes :
      validate c s ≡ ok tt
      → (next_fire c s after ≡ ok none) ⊎ ((t : ℕ) × (next_fire c s after ≡ ok (some t)))
  unfolding validate next_fire search_days
  validate_computes v = elim (Bool-cases s.enabled) [
    | inr off ↦ inl (ground (arith, off))
    | inl on ↦
        let zone : c.has_zone s.tz ≡ true = ground arith in
        elim (Bool-cases (s.recurrence == "once")) [
          | inl y ↦
              let checked : check_date c s.date ≡ ok tt = ground (arith, y) in
              rw (on, zone, y) (once-IsComputed s.date checked)
          | inr n ↦ rw (on, zone, n) (ok-IsComputed (search_days c s after 15 (today c s after)))
        ]
  ]

-- A wall time that stands on the clock of its own instant is at that instant: it is not moved.
valid_at_once :
    (c : Calendar) (n : ℕ) (tz : String) (naive : ℕ)
    → c.astimezone tz (c.timestamp tz naive) ≡ naive
    → first_valid c (suc n) tz naive ≡ some (c.timestamp tz naive)
unfolding first_valid
valid_at_once c n tz naive h = ground arith

pub resolve_existing :
    (c : Calendar) (day hour minute : ℕ) (tz : String)
    → c.astimezone tz (c.timestamp tz (naive_of c day hour minute)) ≡ naive_of c day hour minute
    → resolve_local c day hour minute tz ≡ c.timestamp tz (naive_of c day hour minute)
unfolding resolve_local
resolve_existing c day hour minute tz h =
    rw (valid_at_once c 1439 tz (naive_of c day hour minute) h, resolve_local) refl
