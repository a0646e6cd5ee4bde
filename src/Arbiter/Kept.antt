-- ===== src/Arbiter/Kept.antt =====
-- What a handler of a request keeps (controller/em_controller.py: `_handle_wake_request`).
use echo_voice_satellite.Prelude.{
  ℕ, ◌<◌, String, ◌≡◌, ◌⊎◌, inl, inr, refl, sym, ap, subst, ◌∙◌, Bool, true, false, not, Bool-cases,
  Option-cases, Option, none, some, List, is_given, if◌then◌else◌, ◌==◌, string_eq, nat_eq,
  nat_beq_iff, eq_iff, arith,
}
use echo_voice_satellite.Prelude.Dict.{get, put, get-put}
use echo_voice_satellite.Arbiter.{WakeArbiter}
use echo_voice_satellite.Arbiter.Admission.{
  Stage, created, pressed, running, ended, VoiceRun, Wakes, is_text, cleared, Facts, refusal, deny,
  set_task, handle_barge, start_voice, after_claim, handle_idle, handle_wake_request,
}
use echo_voice_satellite.Arbiter.Held.{
  Held, by_task, by_callback, by_button, by_request, by_opener, by_barge, Pauses, by_voice,
  by_press, IsSound, here, there, written, put-ended,
}

pub cleared-some : (q : Option String) (id r : String) → cleared q id ≡ some r → q ≡ some r
cleared-some q id r e = ground arith

is_text-some : (q : Option String) (id : String) → is_text q id ≡ true → q ≡ some id
is_text-some none id e = cc
is_text-some (some s) id e = ground (arith, eq_iff s id)

-- A write to a key that is there.
pub put-fresh :
    (w : Wakes) (t : ℕ) (s s' : Stage)
    → IsSound w
    → get t w.tasks ≡ some s
    → (u : ℕ) (x : Stage) → get u (put t s' w.tasks) ≡ some x
    → u < w.next_task
put-fresh w t s s' h e u x there_is = elim (written t u s' w.tasks) [
  | here same now ↦ subst (λ k. k < w.next_task) same (h.fresh t s e)
  | there other kept ↦ h.fresh u x (sym kept ∙ there_is)
]

put-waiting :
    (w : Wakes) (t : ℕ) (s s' : Stage)
    → IsSound w
    → get t w.tasks ≡ some s
    → ¬ (s ≡ running)
    → (v : VoiceRun) (u : ℕ) (id : String) → w.voice ≡ some v
    → v.opener ≡ some (u, id)
    → get u (put t s' w.tasks) ≡ some running
put-waiting w t s s' h e idle v u id is_v is_o = elim (written t u s' w.tasks) [
  | here same now ↦
      let runs = h.waiting v u id is_v is_o in
      absurd (idle (let q : get t w.tasks ≡ get u w.tasks = ap (λ k. get k w.tasks) same in cc))
  | there other kept ↦ kept ∙ h.waiting v u id is_v is_o
]

put-Pauses :
    (w : Wakes) (t : ℕ) (s s' : Stage)
    → get t w.tasks ≡ some s
    → ((id : String) → ¬ (s ≡ pressed id))
    → Pauses w.tasks w.voice
    → Pauses (put t s' w.tasks) w.voice
put-Pauses w t s s' e plain (by_voice v) = by_voice v
put-Pauses w t s s' e plain (by_press u r there_is) = elim (written t u s' w.tasks) [
  | here same now ↦
      absurd (plain r (let q : get t w.tasks ≡ get u w.tasks = ap (λ k. get k w.tasks) same in cc))
  | there other kept ↦ by_press u r (kept ∙ there_is)
]

module _ (w : Wakes) (t : ℕ) (id : String) (h : IsSound w)
    (e : get t w.tasks ≡ some (created id)) where
  settled-IsSound :
      (q : Option String) (p : Bool) (a : WakeArbiter) (sent : List (String × String))
      → ((r : String) → q ≡ some r → w.wake_request_id ≡ some r)
      → (p ≡ true → w.oww_paused ≡ true)
      → IsSound (record w {
        wake_request_id = q;
        oww_paused = p;
        arbiter = a;
        sent = sent;
        tasks = put t ended w.tasks;
      })
  settled-IsSound q p a sent tracked paused = record {
    held = λ r is_q.
        put-ended r _ w.tasks _ _ t (created id) e (λ x y. cc) (h.held r (tracked r is_q));
    barged = h.barged;
    paused = λ is_p. put-Pauses w t (created id) ended e (λ x y. cc) (h.paused (paused is_p));
    fresh = put-fresh w t (created id) ended h e;
    waiting = put-waiting w t (created id) ended h e (λ y. cc);
  }

  deny-IsSound : (reason : String) → IsSound (set_task t ended (deny reason id w))
  deny-IsSound reason = settled-IsSound _ _ _ _ (λ r. cleared-some w.wake_request_id id r) (λ x. x)

  granted :
      is_text w.wake_request_id id ≡ true
      → is_given w.voice ≡ true
      → IsSound (set_task t ended (record w { barge_request_id = some id }))
  granted tracked voiced =
      let was =
        settled-IsSound w.wake_request_id w.oww_paused w.arbiter w.sent (λ r x. x) (λ x. x) in
      record {
        held = λ r is_r. by_barge (let q = is_text-some w.wake_request_id id tracked in cc);
        barged = λ r x. voiced;
        paused = was.paused;
        fresh = was.fresh;
        waiting = was.waiting;
      }

  barge-IsSound :
      (f : Facts)
      → is_text w.wake_request_id id ≡ true
      → is_given w.voice ≡ true
      → IsSound (set_task t ended (handle_barge f id w))
  barge-IsSound f tracked voiced = elim (Bool-cases f.barge_in_enabled) [
    | inr off ↦ rw off (deny-IsSound "barge_disabled")
    | inl on ↦ rw on (elim (Option-cases f.barge_denied) [
      | inr (reason, denied) ↦ rw denied (settled-IsSound _ _ _ _ (λ r x. x) (λ x. x))
      | inl free ↦ rw free (granted tracked voiced)
    ])
  ]

taken :
    (w : Wakes) (t u : ℕ) (id r : String) (s : Stage)
    → t ≡ u
    → get t w.tasks ≡ some s
    → (s ≡ created id) ⊎ (s ≡ pressed id)
    → (get u w.tasks ≡ some (created r)) ⊎ (get u w.tasks ≡ some (pressed r))
    → ◌≡◌ {A = Option (ℕ × String)} (some (t, id)) (some (t, r))
taken w t u id r s same e which there_is =
    let q : get t w.tasks ≡ get u w.tasks = ap (λ k. get k w.tasks) same in ground arith

-- The start of a turn takes the request over from its task.
start-Held :
    (w : Wakes) (t : ℕ) (id r : String) (s : Stage)
    → IsSound w
    → is_given w.voice ≡ false
    → get t w.tasks ≡ some s
    → (s ≡ created id) ⊎ (s ≡ pressed id)
    → Held r w.wake_admission_task w.tasks w.voice w.barge_request_id
    → let w' = start_voice t id w in
      Held r w'.wake_admission_task w'.tasks w'.voice w'.barge_request_id
start-Held w t id r s h free e which (by_task u is_task there_is) =
    elim (written t u running w.tasks) [
      | here same now ↦ by_opener _ t refl (taken w t u id r s same e which (inl there_is))
      | there other kept ↦ by_task u is_task (kept ∙ there_is)
    ]
start-Held w t id r s h free e which (by_callback u is_task there_is) =
    elim (written t u running w.tasks) [
      | here same now ↦
          absurd
            (let q : get t w.tasks ≡ get u w.tasks = ap (λ k. get k w.tasks) same in ground arith)
      | there other kept ↦ by_callback u is_task (kept ∙ there_is)
    ]
start-Held w t id r s h free e which (by_button u there_is) = elim (written t u running w.tasks) [
  | here same now ↦ by_opener _ t refl (taken w t u id r s same e which (inr there_is))
  | there other kept ↦ by_button u (kept ∙ there_is)
]
start-Held w t id r s h free e which (by_request v is_v is_r) = absurd (cc)
start-Held w t id r s h free e which (by_opener v u is_v is_o) = absurd (cc)
start-Held w t id r s h free e which (by_barge b) = absurd (let g = h.barged r b in cc)

pub start-IsSound :
    (w : Wakes) (t : ℕ) (id : String) (s : Stage)
    → IsSound w
    → is_given w.voice ≡ false
    → get t w.tasks ≡ some s
    → (s ≡ created id) ⊎ (s ≡ pressed id)
    → IsSound (start_voice t id w)
start-IsSound w t id s h free e which = record {
  held = λ r is_r. start-Held w t id r s h free e which (h.held r is_r);
  barged = λ r b. refl;
  paused = λ p. by_voice refl;
  fresh = put-fresh w t s running h e;
  waiting = λ v u x is_v is_o.
      let same : t ≡ u = ground arith in rw get-put (ground (arith, nat_beq_iff t u));
}

refusal-tracked : (f : Facts) (b : Bool) → refusal f b ≡ none → b ≡ true
unfolding refusal
refusal-tracked f true n = refl
refusal-tracked f false n = ground arith

pub arbiter-IsSound : (w : Wakes) (a : WakeArbiter) → IsSound w → IsSound (record w { arbiter = a })
arbiter-IsSound w a h = record {
  held = h.held;
  barged = h.barged;
  paused = h.paused;
  fresh = h.fresh;
  waiting = h.waiting;
}

pub if-IsSound : (b : Bool) (v w : Wakes) → IsSound v → IsSound w → IsSound (if b then v else w)
if-IsSound true v w hv hw = hv
if-IsSound false v w hv hw = hw

module _ (w : Wakes) (t : ℕ) (id : String) (h : IsSound w)
    (e : get t w.tasks ≡ some (created id)) where
  claimed-IsSound :
      (f : Facts) (c : WakeArbiter × String)
      → is_given w.voice ≡ false
      → IsSound (after_claim t f id c w)
  claimed-IsSound f (a, winner) free =
      if-IsSound (not (winner == w.device_id)) _ _
        (settled-IsSound w t id h e none w.oww_paused w.arbiter _ (λ r x. cc) (λ x. x))
        (if-IsSound (not f.connected) _ _
          (settled-IsSound w t id h e _ false _ _ (λ r. cleared-some w.wake_request_id id r)
            (λ x. cc))
          (start-IsSound (record w { arbiter = a }) t id (created id) (arbiter-IsSound w a h) free e
            (inl refl)))

  idle-IsSound : (f : Facts) → is_given w.voice ≡ false → IsSound (handle_idle t f id w)
  idle-IsSound f free =
      if-IsSound (not f.stop_admissible) _ _ (deny-IsSound w t id h e "not_ready")
        (claimed-IsSound f _ free)

  pub handle-IsSound : (f : Facts) → IsSound (handle_wake_request t f id w)
  unfolding handle_wake_request
  handle-IsSound f = elim (Option-cases (refusal f (is_text w.wake_request_id id))) [
    | inr (reason, r) ↦ rw (r, handle_wake_request) (deny-IsSound w t id h e reason)
    | inl n ↦
        rw (n, handle_wake_request)
          (elim (Bool-cases (is_given w.voice)) [
            | inl v ↦ rw v (barge-IsSound w t id h e f (refusal-tracked f _ n) v)
            | inr v ↦ rw v (idle-IsSound f v)
          ])
  ]
