-- ===== src/Timers/Cancelled.antt =====
-- That a cancelled timer of controller/em_timers.py stays silent, whatever events follow.
use echo_voice_satellite.Prelude.{
  ℕ, String, ◌≡◌, refl, sym, ◌∙◌, ap, Bool, true, false, Option, none, some, List, [], ◌∷◌, arith,
  ◌&&◌, not, any, elem, if◌then◌else◌, ◌==◌, ◌⊎◌, string_eq, eq_iff, Bool-cases, Option-cases, inl,
  inr,
}
use echo_voice_satellite.Prelude.Dict.{get, put, get-put}
use echo_voice_satellite.Timers.{
  TimerRecord, Event, Kind, started, updated, cancelled, finished, lifecycle, Session, new_session,
  remove_finished, ring, dispatch, apply_known, apply, is_cancelled, is_last, id_of, from_payload,
  dismiss_current, dismiss_all,
}
use echo_voice_satellite.Timers.Line.{line, holds}
use echo_voice_satellite.Timers.Sound.{
  IsSound, Call, applies, dismisses, dismisses_all, step, run, run-IsSound,
}

-- The call is the event that Home Assistant cancelled the timer.
abbrev pub cancels : String → Call → Bool
cancels id (applies e now) = elim (lifecycle e.event) [
  | none ↦ false
  | some kind ↦ is_cancelled kind && elim (id_of e) [ none ↦ false | some j ↦ j == id ]
]
cancels id dismisses = false
cancels id dismisses_all = false

-- One of the calls cancelled the timer.
abbrev pub was_cancelled : String → List Call → Bool
was_cancelled id cs = any (cancels id) cs

-- The texts of two payloads of different kinds differ.
abbrev pub TellsKinds : (Event → String) → Type 0
TellsKinds dumps = (e e' : Event) → dumps e ≡ dumps e' → lifecycle e.event ≡ lifecycle e'.event

abbrev noted : Kind → String → List String → List String
noted kind id ids = if is_cancelled kind then id ∷ ids else ids

ring-ids :
    (c : Option TimerRecord) (s : Session) (id : String) (timer : TimerRecord)
    → ((ring c s id timer).0.cancelled_ids ≡ s.cancelled_ids)
      × ((ring c s id timer).0.last_payload ≡ s.last_payload)
unfolding ring
ring-ids none s id timer = (ground arith, ground arith)
ring-ids (some c) s id timer = (ground arith, ground arith)

dispatch-ids :
    (kind : Kind) (s : Session) (id : String) (timer : TimerRecord)
    → ((dispatch kind s id timer).0.cancelled_ids ≡ noted kind id s.cancelled_ids)
      × ((dispatch kind s id timer).0.last_payload ≡ s.last_payload)
unfolding dispatch remove_finished
dispatch-ids cancelled s id timer = (refl, refl)
dispatch-ids finished s id timer = ring-ids s.current _ id timer
dispatch-ids started s id timer = (refl, refl)
dispatch-ids updated s id timer = (refl, refl)

module _ (dumps : Event → String) (tells : TellsKinds dumps) where
  -- A timer whose last payload was a cancellation is among those that were cancelled.
  abbrev Noted : Session → Type 0
  Noted s =
      (id : String) (e : Event)
      → get id s.last_payload ≡ some (dumps e)
      → lifecycle e.event ≡ some cancelled
      → elem id s.cancelled_ids ≡ true

  -- What a call leaves: the notes, the ids noted before, and the one that it cancels.
  record Notes (s s' : Session) (gone : String → Bool) : Type 0 where
    right : Noted s'
    stays : (id : String) → elem id s.cancelled_ids ≡ true → elem id s'.cancelled_ids ≡ true
    adds : (id : String) → gone id ≡ true → elem id s'.cancelled_ids ≡ true

  is_some : (k : Kind) → some k ≡ some cancelled → is_cancelled k ≡ true
  is_some started e = cc
  is_some updated e = cc
  is_some cancelled e = refl
  is_some finished e = cc

  of_cancelled : (k : Kind) → is_cancelled k ≡ true → k ≡ cancelled
  of_cancelled started e = cc
  of_cancelled updated e = cc
  of_cancelled cancelled e = refl
  of_cancelled finished e = cc

  last-eq : (o : Option String) (f : String) → is_last o f ≡ true → o ≡ some f
  last-eq none f e = cc
  last-eq (some g) f e = ap some ((eq_iff g f).0 e)

  put-Noted :
      (s s' : Session) (k : Kind) (id : String) (e : Event)
      → lifecycle e.event ≡ some k
      → s'.last_payload ≡ put id (dumps e) s.last_payload
      → ((j : String) → elem j s.cancelled_ids ≡ true → elem j s'.cancelled_ids ≡ true)
      → (is_cancelled k ≡ true → elem id s'.cancelled_ids ≡ true)
      → Noted s
      → Noted s'
  put-Noted s s' k id e kind puts more own n j d last gone = elim (Bool-cases (id == j)) [
    | inl same ↦
        let one : some (dumps e) ≡ some (dumps d) =
          sym (ap (get j) puts ∙ get-put id j (dumps e) s.last_payload ∙ rw same refl) ∙ last in
        let text : dumps e ≡ dumps d = ground arith in
        let is : some k ≡ some cancelled = sym kind ∙ tells e d text ∙ gone in
        let at : id ≡ j = (eq_iff id j).0 same in rw (← at) (own (is_some k is))
    | inr other ↦
        let old : get j s.last_payload ≡ some (dumps d) =
          sym (ap (get j) puts ∙ get-put id j (dumps e) s.last_payload ∙ rw other refl) ∙ last in
        more j (n j d old gone)
  ]

  noted-own :
      (k : Kind) (id : String) (ids : List String)
      → is_cancelled k ≡ true
      → elem id (noted k id ids) ≡ true
  noted-own k id ids e = rw e (ground (arith, eq_iff id id))

  noted-more :
      (k : Kind) (id j : String) (ids : List String)
      → elem j ids ≡ true
      → elem j (noted k id ids) ≡ true
  noted-more k id j ids e = elim (Bool-cases (is_cancelled k)) [
    | inl c ↦ rw c (ground (arith, e))
    | inr c ↦ rw c e
  ]

  apply_known-Notes :
      (s : Session) (k : Kind) (id : String) (timer : TimerRecord) (e : Event)
      → lifecycle e.event ≡ some k
      → Noted s
      → Notes s (apply_known s k id timer (dumps e)).0 (λ j. is_cancelled k && id == j)
  unfolding apply_known
  apply_known-Notes s k id timer e kind n =
      let s' = record s { last_payload = put id (dumps e) s.last_payload } in
      elim (Bool-cases (is_last (get id s.last_payload) (dumps e))) [
        | inl same ↦
            rw (same, apply_known)
              (record {
                right = n;
                stays = λ j h. h;
                adds = λ j h.
                    let at : id ≡ j = (eq_iff id j).0 (ground arith) in
                    let is : k ≡ cancelled = of_cancelled k (ground arith) in
                    rw (← at) (n id e (last-eq _ _ same) (kind ∙ ap some is));
              })
        | inr new ↦ elim (Bool-cases (elem id s.cancelled_ids && not (is_cancelled k))) [
          | inl dead ↦
              rw (new, dead, apply_known)
                (record {
                  right = put-Noted s s' k id e kind refl (λ j h. h) (λ c. ground arith) n;
                  stays = λ j h. h;
                  adds = λ j h. ground arith;
                })
          | inr live ↦
              let after = dispatch-ids k s' id timer in
              let more : (j : String)
                  → elem j s.cancelled_ids ≡ true
                  → elem j (dispatch k s' id timer).0.cancelled_ids ≡ true =
                λ j h. rw after.0 (noted-more k id j s.cancelled_ids h) in
              let own : is_cancelled k ≡ true
                  → elem id (dispatch k s' id timer).0.cancelled_ids ≡ true =
                λ c. rw after.0 (noted-own k id s.cancelled_ids c) in
              rw (new, live, apply_known)
                (record {
                  right = put-Noted s (dispatch k s' id timer).0 k id e kind after.1 more own n;
                  stays = more;
                  adds = λ j h.
                      let at : id ≡ j = (eq_iff id j).0 (ground arith) in
                      rw (← at) (own (ground arith));
                })
        ]
      ]

  apply-Notes :
      (s : Session) (e : Event) (now : Option ℕ)
      → Noted s
      → Notes s (apply dumps s e now).0 (λ j. cancels j (applies e now))
  unfolding apply
  apply-Notes s e now n = elim (Option-cases (lifecycle e.event)) [
    | inl q ↦
        rw (q, apply, cancels) (record { right = n; stays = λ j h. h; adds = λ j h. absurd (cc h) })
    | inr (kind, q) ↦ elim (Option-cases (id_of e)) [
      | inl r ↦
          rw (q, r, apply, cancels)
            (record {
              right = n;
              stays = λ j h. h;
              adds = λ j h. let wrong : ⊥ = ground arith in absurd wrong;
            })
      | inr (id, r) ↦
          rw (q, r, apply, cancels) (apply_known-Notes s kind id (from_payload e id now) e q n)
    ]
  ]

  step-Notes : (s : Session) (c : Call) → Noted s → Notes s (step dumps s c) (λ j. cancels j c)
  unfolding step dismiss_current dismiss_all
  step-Notes s (applies e now) n = apply-Notes s e now n
  step-Notes s dismisses n = elim (Option-cases s.current) [
    | inl q ↦
        rw (q, dismiss_current)
          (record { right = n; stays = λ j h. h; adds = λ j h. absurd (cc h) })
    | inr (t, q) ↦
        rw (q, dismiss_current)
          (record { right = n; stays = λ j h. h; adds = λ j h. absurd (cc h) })
  ]
  step-Notes s dismisses_all n = record { right = n; stays = λ j h. h; adds = λ j h. absurd (cc h) }

  run-stays :
      (s : Session) (cs : List Call) (id : String)
      → Noted s
      → elem id s.cancelled_ids ≡ true
      → elem id (run dumps s cs).cancelled_ids ≡ true
  unfolding run
  run-stays s [] id n h = h
  run-stays s (c ∷ cs) id n h =
      let k = step-Notes s c n in run-stays (step dumps s c) cs id k.right (k.stays id h)

  run-elem :
      (s : Session) (cs : List Call) (id : String)
      → Noted s
      → was_cancelled id cs ≡ true
      → elem id (run dumps s cs).cancelled_ids ≡ true
  unfolding run
  run-elem s [] id n h = cc
  run-elem s (c ∷ cs) id n h =
      let k = step-Notes s c n in
      elim (Bool-cases (cancels id c)) [
        | inl now ↦ run-stays (step dumps s c) cs id k.right (k.adds id now)
        | inr later ↦ run-elem (step dumps s c) cs id k.right (ground arith)
      ]

  -- After any events and dismissals on a new session, if the texts that `json.dumps` makes of payloads of different
  -- kinds differ: an idle session has no queue, no timer is in the line of alarms twice, and a timer that one of the
  -- events cancelled neither runs nor rings nor waits to ring, whatever events came for it before and after that one.
  pub run-silent :
      (cs : List Call) (id : String)
      → let s = run dumps new_session cs in
        IsSound s
        × ((was_cancelled id cs ≡ false)
            ⊎ ((holds id (line s) ≡ false) × (get id s.running ≡ none)))
  unfolding get
  run-silent cs id =
      let v = run-IsSound dumps cs in
      (
        v,
        elim (Bool-cases (was_cancelled id cs)) [
          | inl gone ↦
              inr (v.silent id (run-elem new_session cs id (λ j d h is. absurd (cc h)) gone))
          | inr never ↦ inl never
        ],
      )
