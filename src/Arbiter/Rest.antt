-- ===== src/Arbiter/Rest.antt =====
-- That a device at rest is free, whatever went before (controller/em_controller.py: the moves of a device together).
use echo_voice_satellite.Prelude.{
  ℕ, String, ◌≡◌, inl, inr, refl, Bool, true, false, Bool-cases, Option-cases, Option, none, some,
  List, [], ◌∷◌, is_given, string_eq, nat_eq, arith, All,
}
use echo_voice_satellite.Prelude.Dict.{Dict, get}
use echo_voice_satellite.Arbiter.Admission.{
  Stage, created, pressed, running, ended, VoiceRun, Wakes, new_wakes, Facts,
}
use echo_voice_satellite.Arbiter.Voice.{
  returns, raises, Move, receives, handles, presses, starts, tests, rounds, calls_back, hears,
  handle_stage, start_stage, clear_stage, round_of, step, steps, start_button,
}
use echo_voice_satellite.Arbiter.Held.{
  Held, by_task, by_callback, by_button, by_request, by_opener, by_barge, by_voice, by_press,
  IsSound, new_wakes-IsSound,
}
use echo_voice_satellite.Arbiter.Kept.{start-IsSound, arbiter-IsSound, if-IsSound, handle-IsSound}
use echo_voice_satellite.Arbiter.Messages.{receive-IsSound, press-IsSound, clear-IsSound}
use echo_voice_satellite.Arbiter.Rounds.{returns-IsSound}

-- No round of a turn ends with an exception, and the stop word is ready when the button's turn starts.
abbrev pub IsSmooth : Move → Type 0
IsSmooth (rounds raises) = ⊥
IsSmooth (starts t false) = ⊥
IsSmooth _ = Unit

handled-IsSound :
    (w : Wakes) (t : ℕ) (f : Facts) (o : Option Stage)
    → IsSound w
    → get t w.tasks ≡ o
    → IsSound (handle_stage t f o w)
handled-IsSound w t f (some (created id)) h e = handle-IsSound w t id h e f
handled-IsSound w t f (some (pressed id)) h e = h
handled-IsSound w t f (some running) h e = h
handled-IsSound w t f (some ended) h e = h
handled-IsSound w t f none h e = h

started-IsSound :
    (w : Wakes) (t : ℕ) (o : Option Stage)
    → IsSound w
    → get t w.tasks ≡ o
    → IsSound (start_stage t true o w)
unfolding start_button
started-IsSound w t (some (pressed id)) h e = elim (Bool-cases (is_given w.voice)) [
  | inl g ↦ rw g h
  | inr g ↦ rw g (start-IsSound w t id (pressed id) h g e (inr refl))
]
started-IsSound w t (some (created id)) h e = h
started-IsSound w t (some running) h e = h
started-IsSound w t (some ended) h e = h
started-IsSound w t none h e = h

cleared-IsSound :
    (w : Wakes) (t : ℕ) (o : Option Stage)
    → IsSound w
    → get t w.tasks ≡ o
    → IsSound (clear_stage t o w)
cleared-IsSound w t (some ended) h e = clear-IsSound w h t e
cleared-IsSound w t (some (created id)) h e = h
cleared-IsSound w t (some (pressed id)) h e = h
cleared-IsSound w t (some running) h e = h
cleared-IsSound w t none h e = h

test-Held :
    (w : Wakes) (r : String)
    → IsSound w
    → is_given w.voice ≡ false
    → Held r w.wake_admission_task w.tasks w.voice w.barge_request_id
    → Held r w.wake_admission_task w.tasks
        (some (record { request_id = none; opener = none }))
        w.barge_request_id
test-Held w r h e (by_task u is_u q) = by_task u is_u q
test-Held w r h e (by_callback u is_u q) = by_callback u is_u q
test-Held w r h e (by_button u q) = by_button u q
test-Held w r h e (by_request x is_x q) = absurd (cc)
test-Held w r h e (by_opener x u is_x q) = absurd (cc)
test-Held w r h e (by_barge q) = by_barge q

test-IsSound :
    (w : Wakes)
    → IsSound w
    → is_given w.voice ≡ false
    → IsSound
        (record w { voice = some (record { request_id = none; opener = none }); oww_paused = true })
test-IsSound w h e = record {
  held = λ r is_r. test-Held w r h e (h.held r is_r);
  barged = λ r x. refl;
  paused = λ x. by_voice refl;
  fresh = h.fresh;
  waiting = λ v t id is_v is_o. absurd (cc);
}

tested-IsSound : (w : Wakes) → IsSound w → IsSound (step w tests)
unfolding step
tested-IsSound w h = elim (Bool-cases (is_given w.voice)) [
  | inl g ↦ rw (g, step) h
  | inr g ↦ rw (g, step) (test-IsSound w h g)
]

round-IsSound :
    (w : Wakes) (o : Option VoiceRun) (goes_on : Bool)
    → IsSound w
    → w.voice ≡ o
    → IsSound (round_of o (returns goes_on) w)
round-IsSound w none goes_on h e = h
round-IsSound w (some v) goes_on h e = returns-IsSound w h v e goes_on

step-IsSound : (w : Wakes) (m : Move) → IsSmooth m → IsSound w → IsSound (step w m)
unfolding step
step-IsSound w (receives id barge) s h = receive-IsSound w h id barge
step-IsSound w (handles t f) s h = handled-IsSound w t f _ h refl
step-IsSound w (presses id ready connected) s h =
    if-IsSound (is_given w.voice) _ _ h (press-IsSound w h id ready connected)
step-IsSound w (starts t true) s h = started-IsSound w t _ h refl
step-IsSound w (starts t false) s h = absurd s
step-IsSound w tests s h = tested-IsSound w h
step-IsSound w (rounds (returns b)) s h = round-IsSound w _ b h refl
step-IsSound w (rounds raises) s h = absurd s
step-IsSound w (calls_back t) s h = cleared-IsSound w t _ h refl
step-IsSound w (hears e) s h = arbiter-IsSound w _ h

steps-IsSound : (w : Wakes) (ms : List Move) → All IsSmooth ms → IsSound w → IsSound (steps w ms)
unfolding steps
steps-IsSound w [] s h = h
steps-IsSound w (m ∷ ms) (s, smooth) h = steps-IsSound (step w m) ms smooth (step-IsSound w m s h)

-- No turn has the lock, and no task of a request is left.
pub record AtRest (w : Wakes) : Type 0 where
  pub silent : w.voice ≡ none
  pub idle : w.tasks ≡ []

missing : (t : ℕ) (m : Dict ℕ Stage) → m ≡ [] → get t m ≡ none
unfolding get
missing t m e = rw (e, get) refl

unheld : (w : Wakes) (r : String) → IsSound w → AtRest w → ¬ (w.wake_request_id ≡ some r)
unheld w r h rest e = elim (h.held r e) [
  | by_task u is_u q ↦ let n = missing u w.tasks rest.idle in cc
  | by_callback u is_u q ↦ let n = missing u w.tasks rest.idle in cc
  | by_button u q ↦ let n = missing u w.tasks rest.idle in cc
  | by_request x is_x q ↦ let n = rest.silent in cc
  | by_opener x u is_x q ↦ let n = rest.silent in cc
  | by_barge q ↦ let n = rest.silent in let g = h.barged r q in ground arith
]

unpaused : (w : Wakes) → IsSound w → AtRest w → ¬ (w.oww_paused ≡ true)
unpaused w h rest e = elim (h.paused e) [
  | by_voice v ↦ let n = rest.silent in ground arith
  | by_press u r q ↦ let n = missing u w.tasks rest.idle in cc
]

free-AtRest :
    (w : Wakes) → IsSound w → AtRest w → (w.wake_request_id ≡ none) × (w.oww_paused ≡ false)
free-AtRest w h rest = (
  elim (Option-cases w.wake_request_id) [ inl e ↦ e | inr (r, e) ↦ absurd (unheld w r h rest e) ],
  elim (Bool-cases w.oww_paused) [ inl e ↦ absurd (unpaused w h rest e) | inr e ↦ e ],
)

-- A device at rest is free for the next request, and its microphone with the wake word, whatever requests, presses,
-- test turns and rounds of turns came before, in whatever order, if no round ended with an exception and the stop
-- word was ready when a turn of the button started.
pub steps-AtRest :
    (device_id : String) (ms : List Move)
    → All IsSmooth ms
    → let w = steps (new_wakes device_id) ms in
      AtRest w → (w.wake_request_id ≡ none) × (w.oww_paused ≡ false)
steps-AtRest device_id ms smooth rest =
    free-AtRest _ (steps-IsSound _ ms smooth (new_wakes-IsSound device_id)) rest
