-- ===== src/Arbiter/Barge.antt =====
-- A request during a turn, and what is left when the turn that it starts fails (controller/em_controller.py:
-- `_wake_request_admission_gate`, `_handle_wake_request`, `_run_voice_locked`).
use echo_voice_satellite.Prelude.{
  ℕ, append_nil, Option, is_given, String, ◌≡◌, refl, eq_iff, nat_beq_iff, ap, ◌∙◌, sym, subst,
  Bool, true, false, none, some, List, [], ◌∷◌, ◌++◌, if◌then◌else◌, ◌==◌, string_eq, nat_eq, arith,
  All,
}
use mathlib.Core.List.{append_assoc}
use echo_voice_satellite.Prelude.Dict.{Dict, get, put, get-put, remove}
use echo_voice_satellite.Arbiter.Admission.{
  Stage, created, running, ended, is_task, create_task, gate, Wakes, VoiceRun, Facts, refusal,
  receive, handle_wake_request,
}
use echo_voice_satellite.Arbiter.Voice.{
  Round, returns, raises, end_voice, press, round, clear_wake_task, round_of, Move, receives,
  handles, presses, starts, tests, rounds, calls_back, hears, step, steps,
}

-- A test turn does not get the lock.
abbrev pub IsUntested : Move → Type 0
IsUntested tests = ⊥
IsUntested _ = Unit

abbrev pub busy : String → List (String × String)
busy id = if id == "" then [] else (id, "busy") ∷ []

-- Each request and each press is denied as busy.
abbrev pub denial : Move → List (String × String)
denial (receives id barge) = busy id
denial (presses id ready connected) = busy id
denial _ = []

abbrev pub denials : List Move → List (String × String)
denials [] = []
denials (m ∷ ms) = denial m ++ denials ms

-- At rest, with a request on record.
abbrev pub Stuck : String → Wakes → Type 0
Stuck r w = (w.wake_request_id ≡ some r) × (w.voice ≡ none) × (w.tasks ≡ [])

-- As it was, but for denials.
abbrev Denied : Wakes → List (String × String) → Wakes → Type 0
Denied w sent w' =
    (w'.wake_request_id ≡ w.wake_request_id)
    × (w'.voice ≡ w.voice)
    × (w'.tasks ≡ w.tasks)
    × (w'.sent ≡ w.sent ++ sent)

receive-Denied :
    (w : Wakes) (r id : String) (barge : Bool) → Stuck r w → Denied w (busy id) (receive id barge w)
unfolding receive
receive-Denied w r id barge (e, v, m) = ground (arith, append_nil w.sent)

press-Denied :
    (w : Wakes) (r id : String) (ready connected : Bool)
    → Stuck r w
    → Denied w (busy id) (press id ready connected w)
unfolding press
press-Denied w r id ready connected (e, v, m) = ground (arith, append_nil w.sent)

same-Denied : (w : Wakes) → Denied w [] w
same-Denied w = (refl, refl, refl, sym (append_nil w.sent))

missing : (t : ℕ) (w : Wakes) (r : String) → Stuck r w → get t w.tasks ≡ none
unfolding get
missing t w r (e, v, m) = rw (m, get) refl

rounds-Denied :
    (w : Wakes) (x : Round) (o : Option VoiceRun) → o ≡ none → Denied w [] (round_of o x w)
rounds-Denied w x none e = same-Denied w
rounds-Denied w x (some v) e = cc

step-Denied :
    (w : Wakes) (r : String) (m : Move) → IsUntested m → Stuck r w → Denied w (denial m) (step w m)
unfolding step
step-Denied w r (receives id barge) u s = receive-Denied w r id barge s
step-Denied w r (handles t f) u s = let n = missing t w r s in rw (n, step) (same-Denied w)
step-Denied w r (presses id ready connected) u s =
    let free : is_given w.voice ≡ false = let v = s.1 in ground arith in
    rw free (press-Denied w r id ready connected s)
step-Denied w r (starts t ready) u s = let n = missing t w r s in rw (n, step) (same-Denied w)
step-Denied w r tests u s = absurd u
step-Denied w r (rounds x) u (e, v, m) = rounds-Denied w x w.voice v
step-Denied w r (calls_back t) u s = let n = missing t w r s in rw (n, step) (same-Denied w)
step-Denied w r (hears x) u s = same-Denied w

steps-Denied :
    (w : Wakes) (r : String) (ms : List Move)
    → Stuck r w
    → All IsUntested ms
    → let w' = steps w ms in
      (w'.wake_request_id ≡ some r)
      × (w'.voice ≡ none)
      × (w'.tasks ≡ [])
      × (w'.sent ≡ w.sent ++ denials ms)
unfolding steps
steps-Denied w r [] (e, v, m) u = (e, v, m, sym (append_nil w.sent))
steps-Denied w r (x ∷ ms) (e, v, m) (u, us) =
    let (e', v', m', sent) = step-Denied w r x u (e, v, m) in
    let (e'', v'', m'', sent') = steps-Denied (step w x) r ms (e' ∙ e, v' ∙ v, m' ∙ m) us in
    (
      e'',
      v'',
      m'',
      sent' ∙ (ap (λ k. k ++ denials ms) sent ∙ append_assoc w.sent (denial x) (denials ms)),
    )

round-raises :
    (w : Wakes) (o : Option VoiceRun) (v : VoiceRun)
    → o ≡ some v
    → round_of o raises w ≡ end_voice v.opener w
unfolding round
round-raises w none v e = absurd (cc)
round-raises w (some x) v e =
    let same : x ≡ v = cc in ap (λ (k : VoiceRun). end_voice k.opener w) same

put-only : (t : ℕ) (m : Dict ℕ Stage) → m ≡ (t, running) ∷ [] → put t ended m ≡ (t, ended) ∷ []
unfolding put
put-only t m e =
    let same : (t == t) ≡ true = ground (arith, nat_beq_iff t t) in rw (e, put, same) refl

back-Stuck :
    (w : Wakes) (t : ℕ) (r : String)
    → w.wake_request_id ≡ some r
    → w.voice ≡ none
    → w.tasks ≡ (t, ended) ∷ []
    → w.wake_admission_task ≡ none
    → let w' = step w (calls_back t) in Stuck r w' × (w'.sent ≡ w.sent)
unfolding step clear_wake_task
back-Stuck w t r e v m free =
    let same : (t == t) ≡ true = ground (arith, nat_beq_iff t t) in
    let there : get t w.tasks ≡ some ended = unfold get in (rw (m, same) refl) in
    let gone : remove t w.tasks ≡ [] = unfold remove in (rw (m, same) refl) in
    let other : is_task w.wake_admission_task t ≡ false = ground arith in
    rw (there, other, gone, clear_wake_task) ((e, v, refl), refl)

raises-Stuck :
    (w : Wakes) (v : VoiceRun) (t : ℕ) (q r : String)
    → w.voice ≡ some v
    → v.opener ≡ some (t, q)
    → w.tasks ≡ (t, running) ∷ []
    → w.wake_request_id ≡ some r
    → w.wake_admission_task ≡ none
    → (r == q) ≡ false
    → let w' = step (step w (rounds raises)) (calls_back t) in Stuck r w' × (w'.sent ≡ w.sent)
unfolding step
raises-Stuck w v t q r is_v is_o m e free other =
    let ends : step w (rounds raises) ≡ end_voice (some (t, q)) w =
      round-raises w w.voice v is_v ∙ ap (λ k. end_voice k w) is_o in
    subst (λ (k : Wakes). Stuck r (step k (calls_back t)) × ((step k (calls_back t)).sent ≡ w.sent))
      (sym ends)
      (back-Stuck (end_voice (some (t, q)) w) t r (ground arith) refl (put-only t w.tasks m) free)

-- Let a turn run for another request than the one that its task came for, as after a barge, with no other task left;
-- and let its round end with an exception, and its task call back. The request then stays on record whatever comes,
-- but for a test turn: every request and every press is denied as busy, and no turn starts.
pub steps-Stuck :
    (w : Wakes) (v : VoiceRun) (t : ℕ) (q r : String) (ms : List Move)
    → w.voice ≡ some v
    → v.opener ≡ some (t, q)
    → w.tasks ≡ (t, running) ∷ []
    → w.wake_request_id ≡ some r
    → w.wake_admission_task ≡ none
    → (r == q) ≡ false
    → All IsUntested ms
    → let w' = steps w (rounds raises ∷ calls_back t ∷ ms) in
      (w'.wake_request_id ≡ some r)
      × (w'.voice ≡ none)
      × (w'.tasks ≡ [])
      × (w'.sent ≡ w.sent ++ denials ms)
unfolding steps
steps-Stuck w v t q r ms is_v is_o m e free other untested =
    let (stuck, sent) = raises-Stuck w v t q r is_v is_o m e free other in
    let (e', v', m', sent') =
      steps-Denied (step (step w (rounds raises)) (calls_back t)) r ms stuck untested in
    (e', v', m', sent' ∙ ap (λ k. k ++ denials ms) sent)

module _ (w : Wakes) (v : VoiceRun) (id : String) (is_v : w.voice ≡ some v) where
  tracked : Wakes
  tracked =
      create_task (created id)
        (record w { wake_request_id = some id; wake_admission_task = some w.next_task })

  receive-tracked : (id == "") ≡ false → step w (receives id true) ≡ tracked
  unfolding step receive tracked
  receive-tracked named = let g : gate true w ≡ none = ground arith in rw (named, g, receive) refl

  handle-tracked :
      (f : Facts)
      → refusal f true ≡ none
      → f.barge_in_enabled ≡ true
      → f.barge_denied ≡ none
      → let w' = step tracked (handles w.next_task f) in
        (w'.voice ≡ some v) × (w'.barge_request_id ≡ some id) × (w'.sent ≡ w.sent)
  unfolding tracked step handle_wake_request
  handle-tracked f passes on granted =
      let g : get w.next_task (put w.next_task (created id) w.tasks) ≡ some (created id) = ground (
        arith,
        get-put w.next_task w.next_task (created id) w.tasks,
        nat_beq_iff w.next_task w.next_task,
      ) in
      let same : (id == id) ≡ true = ground (arith, eq_iff id id) in
      let runs : is_given w.voice ≡ true = ground arith in
      rw (g, same, passes, runs, on, granted, handle_wake_request) (is_v, refl, refl)

step-rounds : (w : Wakes) (r : Round) → step w (rounds r) ≡ round_of w.voice r w
unfolding step
step-rounds w r = refl

round-taken :
    (w : Wakes) (o : Option VoiceRun) (v : VoiceRun) (id : String) (goes_on : Bool)
    → o ≡ some v
    → w.barge_request_id ≡ some id
    → let w' = round_of o (returns goes_on) w in
      (w'.voice ≡ some (record v { request_id = some id }))
      × (w'.barge_request_id ≡ none)
      × (w'.sent ≡ w.sent)
unfolding round
round-taken w none v id goes_on e b = absurd (cc)
round-taken w (some x) v id goes_on e b =
    let same : x ≡ v = cc in
    rw (b, round) (ap (λ (k : VoiceRun). some (record k { request_id = some id })) same, refl, refl)

-- A request that comes during a turn, of a device with barge-in, is taken up when the round returns, if it passes the
-- checks and the registry grants it, and nothing comes between: the next round is for this request, and no denial was
-- sent.
pub steps-barge :
    (w : Wakes) (v : VoiceRun) (id : String) (f : Facts) (goes_on : Bool)
    → w.voice ≡ some v
    → (id == "") ≡ false
    → refusal f true ≡ none
    → f.barge_in_enabled ≡ true
    → f.barge_denied ≡ none
    → let w' = steps w (receives id true ∷ handles w.next_task f ∷ rounds (returns goes_on) ∷ []) in
      (w'.voice ≡ some (record v { request_id = some id }))
      × (w'.barge_request_id ≡ none)
      × (w'.sent ≡ w.sent)
unfolding steps
steps-barge w v id f goes_on is_v named passes on granted =
    let (is_v', b, sent) = handle-tracked w v id is_v f passes on granted in
    let w' = step (tracked w v id is_v) (handles w.next_task f) in
    let (taken, cleared, sent') = round-taken w' w'.voice v id goes_on is_v' b in
    rw (receive-tracked w v id is_v named, step-rounds) (taken, cleared, sent' ∙ sent)
