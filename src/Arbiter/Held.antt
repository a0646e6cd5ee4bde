-- ===== src/Arbiter/Held.antt =====
-- Who holds the request of a device while it is admitted (controller/em_controller.py).
use echo_voice_satellite.Prelude.{
  ℕ, ◌<◌, String, ◌≡◌, inl, inr, ◌∙◌, true, false, Bool-cases, Option, some, is_given, ◌==◌,
  string_eq, nat_eq, nat_beq_iff, arith,
}
use echo_voice_satellite.Prelude.Dict.{Dict, get, put, get-put}
use echo_voice_satellite.Arbiter.Admission.{
  Stage, created, pressed, running, ended, VoiceRun, Wakes, new_wakes,
}

-- What will free the request: a task that has not run or whose callback is to come, the button's task, the loop, the
-- task that waits for it, or a barge that the loop is to take up.
pub data Held (r : String) (task : Option ℕ) (tasks : Dict ℕ Stage) (voice : Option VoiceRun)
    (barge : Option String) : Type 0 where
  by_task : (t : ℕ) → task ≡ some t → get t tasks ≡ some (created r) → Held r task tasks voice barge
  by_callback : (t : ℕ) → task ≡ some t → get t tasks ≡ some ended → Held r task tasks voice barge
  by_button : (t : ℕ) → get t tasks ≡ some (pressed r) → Held r task tasks voice barge
  by_request :
      (v : VoiceRun) → voice ≡ some v → v.request_id ≡ some r → Held r task tasks voice barge
  by_opener :
      (v : VoiceRun) (t : ℕ)
      → voice ≡ some v
      → v.opener ≡ some (t, r)
      → Held r task tasks voice barge
  by_barge : barge ≡ some r → Held r task tasks voice barge

-- The microphone is with a turn, or with one that the button has asked for.
pub data Pauses (tasks : Dict ℕ Stage) (voice : Option VoiceRun) : Type 0 where
  by_voice : is_given voice ≡ true → Pauses tasks voice
  by_press : (t : ℕ) (r : String) → get t tasks ≡ some (pressed r) → Pauses tasks voice

pub record IsSound (w : Wakes) : Type 0 where
  pub held :
      (r : String)
      → w.wake_request_id ≡ some r
      → Held r w.wake_admission_task w.tasks w.voice w.barge_request_id
  pub barged : (r : String) → w.barge_request_id ≡ some r → is_given w.voice ≡ true
  pub paused : w.oww_paused ≡ true → Pauses w.tasks w.voice
  pub fresh : (t : ℕ) (s : Stage) → get t w.tasks ≡ some s → t < w.next_task
  pub waiting :
      (v : VoiceRun) (t : ℕ) (id : String)
      → w.voice ≡ some v
      → v.opener ≡ some (t, id)
      → get t w.tasks ≡ some running

pub new_wakes-IsSound : (device_id : String) → IsSound (new_wakes device_id)
unfolding get
new_wakes-IsSound device_id = record {
  held = λ r e. cc;
  barged = λ r e. cc;
  paused = λ e. cc;
  fresh = λ t s e. cc;
  waiting = λ v t id e f. cc;
}

-- An entry is as it was but for the one that was written.
pub data Written (t u : ℕ) (s : Stage) (m : Dict ℕ Stage) : Type 0 where
  here : t ≡ u → get u (put t s m) ≡ some s → Written t u s m
  there : (t == u) ≡ false → get u (put t s m) ≡ get u m → Written t u s m

pub written : (t u : ℕ) (s : Stage) (m : Dict ℕ Stage) → Written t u s m
written t u s m = elim (Bool-cases (t == u)) [
  | inl e ↦ here ((nat_beq_iff t u).0 e) (ground (arith, get-put t u s m))
  | inr e ↦ there e (ground (arith, get-put t u s m))
]

-- The end of a task leaves the request held: by its callback, if the task held it.
pub put-ended :
    (r : String) (task : Option ℕ) (tasks : Dict ℕ Stage) (voice : Option VoiceRun)
    (barge : Option String) (t : ℕ) (s : Stage)
    → get t tasks ≡ some s
    → ((id : String) → ¬ (s ≡ pressed id))
    → Held r task tasks voice barge
    → Held r task (put t ended tasks) voice barge
put-ended r task tasks voice barge t s e plain (by_task u is_task there_is) =
    elim (written t u ended tasks) [
      | here same now ↦ by_callback u is_task now
      | there other kept ↦ by_task u is_task (kept ∙ there_is)
    ]
put-ended r task tasks voice barge t s e plain (by_callback u is_task there_is) =
    elim (written t u ended tasks) [
      | here same now ↦ by_callback u is_task now
      | there other kept ↦ by_callback u is_task (kept ∙ there_is)
    ]
put-ended r task tasks voice barge t s e plain (by_button u there_is) =
    elim (written t u ended tasks) [
      | here same now ↦ absurd (plain r (cc))
      | there other kept ↦ by_button u (kept ∙ there_is)
    ]
put-ended r task tasks voice barge t s e plain (by_request v is_v is_r) = by_request v is_v is_r
put-ended r task tasks voice barge t s e plain (by_opener v u is_v is_o) = by_opener v u is_v is_o
put-ended r task tasks voice barge t s e plain (by_barge b) = by_barge b
