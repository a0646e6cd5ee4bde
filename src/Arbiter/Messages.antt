-- ===== src/Arbiter/Messages.antt =====
-- What the messages, the presses and the callbacks keep (controller/em_controller.py: handle_control,
-- handle_button_event, `_clear_wake_task`).
use echo_voice_satellite.Prelude.{
  ℕ, ◌+◌, ◌<◌, String, ◌≡◌, inl, inr, refl, sym, ap, ◌∙◌, Bool, true, false, not, Bool-cases,
  Option-cases, Option, none, some, List, is_given, if◌then◌else◌, ◌==◌, string_eq, nat_eq,
  nat_beq_iff, eq_iff, arith,
}
use echo_voice_satellite.Prelude.Dict.{get, put, remove, get-put, get-remove}
use echo_voice_satellite.Arbiter.Admission.{
  Stage, created, pressed, ended, Wakes, is_task, gate, receive, create_task,
}
use echo_voice_satellite.Arbiter.Voice.{clear_wake_task, press, same_text}
use echo_voice_satellite.Arbiter.Held.{
  Held, by_task, by_callback, by_button, by_request, by_opener, by_barge, Pauses, by_voice,
  by_press, IsSound, here, there, written,
}
use echo_voice_satellite.Arbiter.Kept.{if-IsSound}

sent-IsSound :
    (w : Wakes) (sent : List (String × String)) → IsSound w → IsSound (record w { sent = sent })
sent-IsSound w sent h = record {
  held = h.held;
  barged = h.barged;
  paused = h.paused;
  fresh = h.fresh;
  waiting = h.waiting;
}

same_text-eq : (p q : Option String) → same_text p q ≡ true → p ≡ q
same_text-eq none none e = refl
same_text-eq none (some b) e = cc
same_text-eq (some a) none e = cc
same_text-eq (some a) (some b) e = ground (arith, eq_iff a b)

module _ (w : Wakes) (h : IsSound w) where
  new-kept :
      (x : Stage) (u : ℕ) (s : Stage)
      → get u w.tasks ≡ some s
      → get u (put w.next_task x w.tasks) ≡ some s
  new-kept x u s e =
      let below = h.fresh u s e in
      ground (arith, get-put w.next_task u x w.tasks, nat_beq_iff w.next_task u)

  new-fresh :
      (x : Stage) (u : ℕ) (s : Stage)
      → get u (put w.next_task x w.tasks) ≡ some s
      → u < w.next_task + 1
  new-fresh x u s e = elim (written w.next_task u x w.tasks) [
    | here same now ↦ omega arith
    | there other kept ↦ let below = h.fresh u s (sym kept ∙ e) in omega arith
  ]

  new-Pauses : (x : Stage) → Pauses w.tasks w.voice → Pauses (put w.next_task x w.tasks) w.voice
  new-Pauses x (by_voice v) = by_voice v
  new-Pauses x (by_press u r e) = by_press u r (new-kept x u _ e)

  new-get : (x : Stage) → get w.next_task (put w.next_task x w.tasks) ≡ some x
  new-get x =
      ground (arith, get-put w.next_task w.next_task x w.tasks, nat_beq_iff w.next_task w.next_task)

  received-IsSound :
      (id : String)
      → IsSound (
          create_task
            (created id)
            (record w { wake_request_id = some id; wake_admission_task = some w.next_task }))
  received-IsSound id = record {
    held = λ r e. by_task w.next_task refl (new-get (created id) ∙ ground arith);
    barged = h.barged;
    paused = λ p. new-Pauses (created id) (h.paused p);
    fresh = new-fresh (created id);
    waiting = λ v u x is_v is_o. new-kept (created id) u _ (h.waiting v u x is_v is_o);
  }

  pub receive-IsSound : (id : String) (barge : Bool) → IsSound (receive id barge w)
  unfolding receive
  receive-IsSound id barge = elim (Bool-cases (id == "")) [
    | inl e ↦ rw (e, receive) h
    | inr e ↦ elim (Option-cases (gate barge w)) [
      | inl n ↦ rw (e, n, receive) (received-IsSound id)
      | inr (reason, n) ↦ rw (e, n, receive) (sent-IsSound w _ h)
    ]
  ]

  pressed-IsSound :
      (id : String)
      → IsSound
          (create_task (pressed id) (record w { wake_request_id = some id; oww_paused = true }))
  pressed-IsSound id = record {
    held = λ r e. by_button w.next_task (new-get (pressed id) ∙ ground arith);
    barged = h.barged;
    paused = λ p. by_press w.next_task id (new-get (pressed id));
    fresh = new-fresh (pressed id);
    waiting = λ v u x is_v is_o. new-kept (pressed id) u _ (h.waiting v u x is_v is_o);
  }

  pub press-IsSound : (id : String) (ready connected : Bool) → IsSound (press id ready connected w)
  unfolding press
  press-IsSound id ready connected = if-IsSound (id == "") _ _ h (
      if-IsSound (is_given w.wake_request_id) _ _ (sent-IsSound w _ h) (
        if-IsSound (not ready) _ _ (sent-IsSound w _ h)
          (if-IsSound (not connected) _ _ (sent-IsSound w _ h) (pressed-IsSound id))))

  module _ (t : ℕ) (e : get t w.tasks ≡ some ended) where
    removed-kept :
        (u : ℕ) (s : Stage)
        → ¬ (s ≡ ended)
        → get u w.tasks ≡ some s
        → get u (remove t w.tasks) ≡ some s
    removed-kept u s other there_is = elim (Bool-cases (t == u)) [
      | inl same ↦
          let q : get t w.tasks ≡ get u w.tasks =
            ap (λ k. get k w.tasks) ((nat_beq_iff t u).0 same) in
          absurd (other (ground arith))
      | inr apart ↦ ground (arith, get-remove t u w.tasks)
    ]

    removed-other :
        (u : ℕ) (s : Stage)
        → is_task w.wake_admission_task t ≡ false
        → w.wake_admission_task ≡ some u
        → get u w.tasks ≡ some s
        → get u (remove t w.tasks) ≡ some s
    removed-other u s other is_u there_is =
        ground (arith, get-remove t u w.tasks, nat_beq_iff t u, nat_beq_iff u t)

    removed-Held :
        (r : String)
        → is_task w.wake_admission_task t ≡ false
        → Held r w.wake_admission_task w.tasks w.voice w.barge_request_id
        → Held r w.wake_admission_task (remove t w.tasks) w.voice w.barge_request_id
    removed-Held r other (by_task u is_u q) = by_task u is_u (removed-other u _ other is_u q)
    removed-Held r other (by_callback u is_u q) =
        by_callback u is_u (removed-other u _ other is_u q)
    removed-Held r other (by_button u q) = by_button u (removed-kept u _ (λ x. cc) q)
    removed-Held r other (by_request v is_v q) = by_request v is_v q
    removed-Held r other (by_opener v u is_v q) = by_opener v u is_v q
    removed-Held r other (by_barge b) = by_barge b

    removed-Pauses : Pauses w.tasks w.voice → Pauses (remove t w.tasks) w.voice
    removed-Pauses (by_voice v) = by_voice v
    removed-Pauses (by_press u r q) = by_press u r (removed-kept u _ (λ x. cc) q)

    removed-fresh : (u : ℕ) (s : Stage) → get u (remove t w.tasks) ≡ some s → u < w.next_task
    removed-fresh u s q = h.fresh u s (ground (arith, get-remove t u w.tasks))

    same-some :
        (r : String)
        → (if same_text w.barge_request_id w.wake_request_id then w.wake_request_id else none)
          ≡ some r
        → w.barge_request_id ≡ some r
    same-some r q = ground (arith, same_text-eq w.barge_request_id w.wake_request_id)

    pub clear-IsSound : IsSound (clear_wake_task t w)
    unfolding clear_wake_task
    clear-IsSound = elim (Bool-cases (is_task w.wake_admission_task t)) [
      | inl mine ↦
          rw (mine, clear_wake_task)
            (record {
              held = λ r q. by_barge (same-some r q);
              barged = h.barged;
              paused = λ p. removed-Pauses (h.paused p);
              fresh = removed-fresh;
              waiting = λ v u x is_v is_o. removed-kept u _ (λ y. cc) (h.waiting v u x is_v is_o);
            })
      | inr other ↦
          rw (other, clear_wake_task)
            (record {
              held = λ r q. removed-Held r other (h.held r q);
              barged = h.barged;
              paused = λ p. removed-Pauses (h.paused p);
              fresh = removed-fresh;
              waiting = λ v u x is_v is_o. removed-kept u _ (λ y. cc) (h.waiting v u x is_v is_o);
            })
    ]
