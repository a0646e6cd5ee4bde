-- ===== src/TurnEngine/Run/Laws.antt =====
-- What the integration and the device are told of a turn (controller/em_turn_engine.py).
use echo_voice_satellite.Prelude.{
  ℕ, ◌+◌, ◌≤◌, ◌≡◌, refl, String, Bool, true, false, Bool-cases, Option, none, some, List, [], ◌∷◌,
  ◌++◌, inl, inr, arith,
}
use echo_voice_satellite.TurnEngine.Run.{
  Answer, gives, cancels, Ran, ran, timed_out, task_cancelled, failed, Event, terminal, granted,
  denied, removed, offered, Ending, returns, raises_cancelled, raises_error, Answers,
  finish_unstarted, run_admitted, after_grant, deny, admit, after_offer, trigger_voice_turn,
}

abbrev pub is_terminal : Event → ℕ
is_terminal (terminal o) = 1
is_terminal e = 0

abbrev pub is_reply : Event → ℕ
is_reply (denied r) = 1
is_reply granted = 1
is_reply e = 0

abbrev pub count : (Event → ℕ) → List Event → ℕ
count f [] = 0
count f (e ∷ es) = f e + count f es

-- How many terminal events an end of the task goes with.
abbrev pub terminals : Ending → ℕ
terminals (returns b) = 1
terminals raises_cancelled = 1
terminals raises_error = 0

abbrev IsTold : List Event × Ending → Type 0
IsTold r = (count is_terminal r.0 ≡ terminals r.1) × (count is_reply r.0 ≤ 1)

abbrev IsQuiet : List Event × Ending → Type 0
IsQuiet r = (count is_terminal r.0 ≡ terminals r.1) × (count is_reply r.0 ≡ 0)

run_admitted-IsQuiet : (a : Answers) (r : Ran) → IsQuiet (run_admitted a r)
unfolding run_admitted finish_unstarted
run_admitted-IsQuiet a (ran b) = (refl, refl)
run_admitted-IsQuiet a timed_out = (refl, refl)
run_admitted-IsQuiet a task_cancelled = (refl, refl)
run_admitted-IsQuiet a failed = (refl, refl)

after_grant-IsTold : (a : Answers) (s : Answer Bool) → IsTold (after_grant a s)
unfolding after_grant finish_unstarted
after_grant-IsTold a cancels = (refl, omega arith)
after_grant-IsTold a (gives false) = (refl, omega arith)
after_grant-IsTold a (gives true) =
    let (t, q) = run_admitted-IsQuiet a a.runs in (omega (arith, t), omega (arith, q))

deny-IsTold : (reason : String) → IsTold (deny reason)
unfolding finish_unstarted
deny-IsTold reason = (refl, omega arith)

admit-IsTold : (a : Answers) (s : Answer (Option Bool)) → IsTold (admit a s)
unfolding admit finish_unstarted after_grant run_admitted
admit-IsTold a cancels = (refl, omega arith)
admit-IsTold a (gives none) = deny-IsTold "backend_unavailable"
admit-IsTold a (gives (some false)) = deny-IsTold "backend_unavailable"
admit-IsTold a (gives (some true)) = elim (Bool-cases a.admission_valid) [
  | inl y ↦ rw y (after_grant-IsTold a a.starts)
  | inr n ↦ rw n (deny-IsTold "disconnected")
]

after_offer-IsTold : (b : Bool) (a : Answers) (s : Answer (Unit {0})) → IsTold (after_offer b a s)
unfolding after_offer finish_unstarted
after_offer-IsTold b a cancels = (refl, omega arith)
after_offer-IsTold true a (gives u) = admit-IsTold a a.accepts
after_offer-IsTold false a (gives u) =
    let (t, q) = run_admitted-IsQuiet a a.runs in (t, omega (arith, q))

count-removed :
    (f : Event → ℕ) (es : List Event) → f removed ≡ 0 → count f (es ++ removed ∷ []) ≡ count f es
count-removed f [] h = omega (arith, h)
count-removed f (e ∷ es) h = omega (arith, count-removed f es h)

-- A turn that was created tells the integration of its end exactly once, unless its run fails with an error
-- that is neither a timeout nor a cancellation: then it does not tell it at all. In every case the device's
-- request is answered at most once, and the turn's removal from the registry comes last.
pub trigger-told :
    (has_request : Bool) (a : Answers) (u : Unit {0})
    → a.creates ≡ gives u
    → let r = trigger_voice_turn has_request a in
      (count is_terminal r.0 ≡ terminals r.1)
      × (count is_reply r.0 ≤ 1)
      × (es : List Event) × (r.0 ≡ offered ∷ (es ++ removed ∷ []))
unfolding trigger_voice_turn
trigger-told b a u h =
    let (t, q) = after_offer-IsTold b a a.offers in
    let es = (after_offer b a a.offers).0 in
    rw (h, trigger_voice_turn)
      (
        omega (arith, t, count-removed is_terminal es refl),
        omega (arith, q, count-removed is_reply es refl),
        es,
        refl,
      )
