-- ===== src/TurnEngine/Run.antt =====
-- `trigger_voice_turn`, `_run_turn`, `_outcome_for` and `_finish_unstarted_turn` of
-- controller/em_turn_engine.py: the life of a turn from its offer to its end. What each wait of the task
-- answers is an input; a wait may also end in the cancellation of the task. A message or a write of the
-- database that itself fails is not modelled, nor is a cancellation that comes after the run of the turn.
pub mod Laws
mod Tests
use echo_voice_satellite.Prelude.{
  ℕ, ◌+◌, String, Bool, true, false, Option, none, some, List, [], ◌∷◌, ◌++◌, not, if◌then◌else◌,
}

-- What a wait gives, or that the task was cancelled in it.
pub data Answer {ℓ} (A : Type ℓ) : Type ℓ where
  gives : A → Answer A
  cancels : Answer A

-- `_run_turn`: it returns a Boolean, or raises a timeout, a cancellation or another error.
pub data Ran : Type 0 where
  ran : Bool → Ran
  timed_out : Ran
  task_cancelled : Ran
  failed : Ran

-- The turn when its endpoint is set, and what its playback then does.
pub record Endpoint : Type 0 where
  pub cancelled : Bool
  pub no_speech : Bool
  pub has_socket : Bool
  pub cancelled_after : Bool

-- `none` is a wait that timed out; the playback, if it is reached, ends in the last argument.
pub run_turn : Bool → Option Endpoint → Ran → Ran
run_turn false e played = timed_out
run_turn true none played = timed_out
run_turn true (some e) played =
    if e.cancelled
    then ran false
    else if e.no_speech
    then ran true
    else if not e.has_socket
    then ran (not e.cancelled_after)
    else elim played [
      | ran b ↦ ran (not e.cancelled_after)
      | timed_out ↦ timed_out
      | task_cancelled ↦ task_cancelled
      | failed ↦ failed
    ]

pub outcome_for : Option String → Bool → Bool → String
outcome_for (some reason) no_speech result = reason
outcome_for none no_speech result =
    if no_speech then "no_speech" else if result then "ok" else "cancelled"

pub data Event : Type 0 where
  offered : Event
  denied : String → Event
  granted : Event
  admitted : Event
  ended : String → Event
  cancel_told : String → Event
  saved : String → Event
  terminal : String → Event
  stop_disarmed : Event
  removed : Event

-- How the task ends: with a value, with its cancellation, or with another error.
pub data Ending : Type 0 where
  returns : Bool → Ending
  raises_cancelled : Ending
  raises_error : Ending

-- The answers of the waits, in order: the row of the turn, the offer, the integration (none on a timeout,
-- false if it refused), the validity of the admission, the start of the device, and the run, with the cause
-- of the end and the flags that the turn has then.
pub record Answers : Type 0 where
  pub creates : Answer (Unit {0})
  pub offers : Answer (Unit {0})
  pub accepts : Answer (Option Bool)
  pub admission_valid : Bool
  pub starts : Answer Bool
  pub runs : Ran
  pub end_reason : Option String
  pub no_speech : Bool
  pub continue_conversation : Bool

pub finish_unstarted : String → List Event
finish_unstarted outcome =
    ended outcome ∷ cancel_told outcome ∷ saved outcome ∷ terminal outcome ∷ stop_disarmed ∷ []

-- The turn that runs, to the end of the `try`.
pub run_admitted : Answers → Ran → List Event × Ending
run_admitted a (ran result) =
    let outcome = outcome_for a.end_reason a.no_speech result in
    (saved outcome ∷ terminal outcome ∷ stop_disarmed ∷ [], returns a.continue_conversation)
run_admitted a timed_out =
    (saved "audio_timeout" ∷ terminal "audio_timeout" ∷ stop_disarmed ∷ [], returns false)
run_admitted a task_cancelled = (finish_unstarted "disconnected", raises_cancelled)
run_admitted a failed = ([], raises_error)

pub after_grant : Answers → Answer Bool → List Event × Ending
after_grant a cancels = (granted ∷ finish_unstarted "disconnected", raises_cancelled)
after_grant a (gives false) = (granted ∷ finish_unstarted "device_not_started", returns false)
after_grant a (gives true) = let (es, end) = run_admitted a a.runs in (granted ∷ admitted ∷ es, end)

abbrev pub deny : String → List Event × Ending
deny reason = (denied reason ∷ finish_unstarted reason, returns false)

pub admit : Answers → Answer (Option Bool) → List Event × Ending
admit a cancels = (finish_unstarted "disconnected", raises_cancelled)
admit a (gives none) = deny "backend_unavailable"
admit a (gives (some false)) = deny "backend_unavailable"
admit a (gives (some true)) =
    let go = after_grant a a.starts in if a.admission_valid then go else deny "disconnected"

-- behind the offer; a turn with no request of the device runs at once
pub after_offer : Bool → Answers → Answer (Unit {0}) → List Event × Ending
after_offer has_request a cancels = (finish_unstarted "disconnected", raises_cancelled)
after_offer true a (gives u) = admit a a.accepts
after_offer false a (gives u) = run_admitted a a.runs

pub trigger_voice_turn : Bool → Answers → List Event × Ending
trigger_voice_turn has_request a = elim a.creates [
  | cancels ↦ (saved "disconnected" ∷ [], raises_cancelled)
  | gives u ↦
      let (es, end) = after_offer has_request a a.offers in (offered ∷ (es ++ removed ∷ []), end)
]
