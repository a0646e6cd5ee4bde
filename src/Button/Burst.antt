-- ===== src/Button/Burst.antt =====
-- A burst of taps becomes one event (controller/em_tap_burst.py).
use echo_voice_satellite.Prelude.{
  ℕ, zero, suc, ◌+◌, ◌<◌, ◌≡◌, refl, ap, ◌∙◌, Bool, true, String, Option, some, List, [], ◌∷◌, ◌++◌,
  arith,
}
use echo_voice_satellite.Button.{
  tap_event_name, TapCoalescer, idle, tap, drop_burst, expire, Step, taps, cancels, wakes, is_timer,
  step,
}

pub run : TapCoalescer → List Step → TapCoalescer × List (Option String)
run c [] = (c, [])
run c (s ∷ ss) = let (c', out) = step c s in let (c'', rest) = run c' ss in (c'', out ++ rest)

-- `n` further taps, among which the sleeps of cancelled tasks may end: those of tasks numbered below `t`.
abbrev pub IsBurst : ℕ → ℕ → List Step → Type 0
IsBurst t n [] = n ≡ 0
IsBurst t zero (taps ∷ ss) = ⊥
IsBurst t (suc n) (taps ∷ ss) = IsBurst (t + 1) n ss
IsBurst t n (cancels ∷ ss) = ⊥
IsBurst t n (wakes i e ∷ ss) = (suc i < t) × IsBurst t n ss

abbrev burst : ℕ → ℕ → TapCoalescer
burst k t = record { count = k; timer = some t; tasks = t + 1 }

stale_wakes :
    (k t i : ℕ) (e : Bool) → suc i < t + 1 → step (burst k t) (wakes i e) ≡ (burst k t, [])
unfolding step is_timer
stale_wakes k t i e h = ground arith

-- Taps that follow each other within the window only count, whatever cancelled tasks wake up between them.
pub run-burst :
    (k t n : ℕ) (ss : List Step)
    → IsBurst (t + 1) n ss
    → run (burst k t) ss ≡ (burst (k + n) (t + n), [])
unfolding run step tap
run-burst k t n [] h = ground arith
run-burst k t zero (taps ∷ ss) h = elim h [ ]
run-burst k t (suc n) (taps ∷ ss) h = rw (run-burst (k + 1) (t + 1) n ss h) (ground arith)
run-burst k t n (cancels ∷ ss) h = elim h [ ]
run-burst k t n (wakes i e ∷ ss) (lt, h) = rw (stale_wakes k t i e lt) (run-burst k t n ss h)

-- The event that reports a burst of `n` taps after the first.
abbrev pub burst_name : ℕ → String
burst_name zero = "single"
burst_name (suc zero) = "double"
burst_name (suc (suc n)) = "triple"

expire_burst :
    (t n : ℕ) → step (burst (1 + n) t) (wakes t true) ≡ (idle (t + 1), some (burst_name n) ∷ [])
unfolding step expire is_timer tap_event_name
expire_burst t zero = ground arith
expire_burst t (suc zero) = ground arith
expire_burst t (suc (suc n)) = ground arith

-- A burst of taps reports nothing until the sleep of its last tap ends, and then exactly one event, named
-- for the number of taps, three and more alike; it leaves the coalescer idle.
pub burst_event :
    (t n : ℕ) (ss : List Step)
    → IsBurst (t + 1) n ss
    → (let r = run (idle t) (taps ∷ ss) in
        (r.1 ≡ []) × (step r.0 (wakes (t + n) true) ≡ (idle (t + n + 1), some (burst_name n) ∷ [])))
unfolding run step tap
burst_event t n ss h = (
  ap (λ r. r.1) (run-burst 1 t n ss h),
  ap (λ r. step r.0 (wakes (t + n) true)) (run-burst 1 t n ss h) ∙ expire_burst (t + n) n,
)

-- A burst that is dropped, or that ends when the setting is off, reports nothing, and no task of it that
-- wakes later does: the sleeps that end after it find the coalescer idle.
pub dropped_burst :
    (c : TapCoalescer) (i : ℕ) (e : Bool) → step (step c cancels).0 (wakes i e) ≡ (idle c.tasks, [])
unfolding step drop_burst is_timer
dropped_burst c i e = refl
