-- ===== src/Arbiter/Rounds.antt =====
-- What the rounds of a turn keep (controller/em_controller.py: the loop of `_run_voice_locked`).
use echo_voice_satellite.Prelude.{
  ℕ, ◌<◌, String, ◌≡◌, inl, inr, refl, sym, subst, ◌∙◌, Bool, false, Bool-cases, Option-cases,
  Option, none, some, string_eq, nat_eq, eq_iff, arith,
}
use echo_voice_satellite.Prelude.Dict.{get}
use echo_voice_satellite.Arbiter.Admission.{Stage, running, ended, VoiceRun, Wakes, cleared}
use echo_voice_satellite.Arbiter.Voice.{returns, loop_cleared, close_task, end_voice, round}
use echo_voice_satellite.Arbiter.Held.{
  Held, by_task, by_callback, by_button, by_request, by_opener, by_barge, by_voice, IsSound,
  put-ended,
}
use echo_voice_satellite.Arbiter.Kept.{cleared-some, put-fresh}

loop_cleared-some :
    (q o : Option String) (r : String) → loop_cleared q o ≡ some r → (q ≡ some r) × ¬ (o ≡ some r)
loop_cleared-some q none r e = (e, λ x. cc)
loop_cleared-some q (some id) r e =
    (cleared-some q id r e, λ x. ground (arith, eq_iff r id, eq_iff r r, cleared-some q id r e))

cleared-other : (q : Option String) (id r : String) → cleared q id ≡ some r → ¬ (id ≡ r)
cleared-other q id r e same = ground (arith, eq_iff r id, eq_iff r r, cleared-some q id r e)

module _ (w : Wakes) (h : IsSound w) (v : VoiceRun) (is_v : w.voice ≡ some v) where
  -- The loop goes on with a new request, or with none.
  next-Held :
      (r : String) (b : Option String)
      → w.barge_request_id ≡ b
      → ¬ (v.request_id ≡ some r)
      → Held r w.wake_admission_task w.tasks w.voice w.barge_request_id
      → Held r w.wake_admission_task w.tasks (some (record v { request_id = b })) none
  next-Held r b is_b other (by_task u is_u q) = by_task u is_u q
  next-Held r b is_b other (by_callback u is_u q) = by_callback u is_u q
  next-Held r b is_b other (by_button u q) = by_button u q
  next-Held r b is_b other (by_request x is_x q) = absurd (other (let same : v ≡ x = cc in cc))
  next-Held r b is_b other (by_opener x u is_x q) = by_opener _ u refl (let same : v ≡ x = cc in cc)
  next-Held r b is_b other (by_barge q) = by_request _ refl (sym is_b ∙ q)

  goes_on-IsSound :
      (b : Option String)
      → w.barge_request_id ≡ b
      → IsSound (record w {
        wake_request_id = loop_cleared w.wake_request_id v.request_id;
        barge_request_id = none;
        voice = some (record v { request_id = b });
      })
  goes_on-IsSound b is_b = record {
    held = λ r e.
        let (was, other) = loop_cleared-some w.wake_request_id v.request_id r e in
        next-Held r b is_b other (h.held r was);
    barged = λ r x. refl;
    paused = λ x. by_voice refl;
    fresh = h.fresh;
    waiting = λ x u id is_x is_o.
        h.waiting v u id is_v
          (let same : ◌≡◌ {A = VoiceRun} (record v { request_id = b }) x = cc in cc);
  }

  -- The end of the turn, when no barge is to be taken up.
  ended-Held :
      (q : Option String) (o : Option (ℕ × String)) (r : String)
      → ((r : String) → q ≡ some r → (w.wake_request_id ≡ some r) × ¬ (v.request_id ≡ some r))
      → w.barge_request_id ≡ none
      → v.opener ≡ o
      → let w' =
          close_task o (record w { wake_request_id = q; voice = none; oww_paused = false }) in
        w'.wake_request_id ≡ some r → Held r w'.wake_admission_task w'.tasks none w.barge_request_id
  ended-Held q none r was unbarged is_o e =
      let (is_r, other) = was r e in
      elim (h.held r is_r) [
        | by_task u is_u s ↦ by_task u is_u s
        | by_callback u is_u s ↦ by_callback u is_u s
        | by_button u s ↦ by_button u s
        | by_request x is_x s ↦ absurd (other (let same : v ≡ x = cc in cc))
        | by_opener x u is_x s ↦ absurd (let same : v ≡ x = cc in cc)
        | by_barge s ↦ absurd (cc)
      ]
  ended-Held q (some (t, id)) r was unbarged is_o e =
      let (is_r, other) = was r (cleared-some q id r e) in
      let runs = h.waiting v t id is_v is_o in
      elim (put-ended r _ w.tasks _ _ t running runs (λ x y. cc) (h.held r is_r)) [
        | by_task u is_u s ↦ by_task u is_u s
        | by_callback u is_u s ↦ by_callback u is_u s
        | by_button u s ↦ by_button u s
        | by_request x is_x s ↦ absurd (other (let same : v ≡ x = cc in cc))
        | by_opener x u is_x s ↦
            absurd (cleared-other q id r e (let same : v ≡ x = cc in ground arith))
        | by_barge s ↦ absurd (cc)
      ]

  ended-fresh :
      (o : Option (ℕ × String)) (u : ℕ) (s : Stage)
      → v.opener ≡ o
      → get u (close_task o w).tasks ≡ some s
      → u < w.next_task
  ended-fresh none u s is_o q = h.fresh u s q
  ended-fresh (some (t, id)) u s is_o q =
      put-fresh w t running ended h (h.waiting v t id is_v is_o) u s q

  end-IsSound :
      (q : Option String) (o : Option (ℕ × String))
      → ((r : String) → q ≡ some r → (w.wake_request_id ≡ some r) × ¬ (v.request_id ≡ some r))
      → w.barge_request_id ≡ none
      → v.opener ≡ o
      → IsSound (end_voice o (record w { wake_request_id = q }))
  end-IsSound q none was unbarged is_o = record {
    held = λ r e. ended-Held q none r was unbarged is_o e;
    barged = λ r e. cc;
    paused = λ e. cc;
    fresh = h.fresh;
    waiting = λ x u id is_x e. cc;
  }
  end-IsSound q (some (t, id)) was unbarged is_o = record {
    held = λ r e. ended-Held q (some (t, id)) r was unbarged is_o e;
    barged = λ r e. cc;
    paused = λ e. cc;
    fresh = λ u s e. ended-fresh (some (t, id)) u s is_o e;
    waiting = λ x u id is_x e. cc;
  }

  pub returns-IsSound : (goes_on : Bool) → IsSound (round v (returns goes_on) w)
  unfolding round
  returns-IsSound goes_on = elim (Option-cases w.barge_request_id) [
    | inr (id, b) ↦ rw (b, round) (goes_on-IsSound (some id) b)
    | inl b ↦ elim (Bool-cases goes_on) [
      | inl e ↦
          rw (b, e, round)
            (subst
              (λ k. IsSound (record w {
                wake_request_id = loop_cleared w.wake_request_id v.request_id;
                barge_request_id = k;
                voice = some (record v { request_id = none });
              }))
              (sym b) (goes_on-IsSound none b))
      | inr e ↦
          rw (b, e, round)
            (end-IsSound _ v.opener (loop_cleared-some w.wake_request_id v.request_id) b refl)
    ]
  ]
