-- ===== src/Timers/Tests.antt =====
-- The laws of `Timers` at concrete events, with a fingerprint of the name and the time left.
use echo_voice_satellite.Prelude.{
  String, ◌≡◌, ◌⊎◌, ◌∙◌, ap, sym, refl, true, false, Option, none, some, List, [], ◌∷◌, string_eq,
}
use echo_voice_satellite.Prelude.Dict.{get}
use echo_voice_satellite.Prelude.Int.{pos}
use echo_voice_satellite.Timers.{
  Event, finished, lifecycle, Session, new_session, apply, from_payload,
}
use echo_voice_satellite.Timers.Line.{line, holds}
use echo_voice_satellite.Timers.Cancelled.{TellsKinds, was_cancelled, run-silent}
use echo_voice_satellite.Timers.Sound.{IsSound, Call, applies, dismisses, run, run-IsSound}

abbrev payload : String → String → Event
payload kind id = record {
  event = some kind;
  timer_id = some id;
  name = none;
  total_seconds = some (pos 60);
  seconds_left = some (pos 0);
  is_active = some false;
  ha_device_id = none;
}

abbrev dumps : Event → String
dumps e = elim e.event [ none ↦ "" | some k ↦ k ]

abbrev tea : Event
tea = payload "finished" "tea"

abbrev calls : List Call
calls =
    applies (payload "started" "tea") none
    ∷ applies tea none
    ∷ applies (payload "finished" "egg") none
    ∷ applies (payload "cancelled" "egg") none
    ∷ applies (payload "updated" "egg") none
    ∷ dismisses
    ∷ []

lifecycle-text :
    (o : Option String) → lifecycle o ≡ lifecycle (some (elim o [ none ↦ "" | some k ↦ k ]))
unfolding lifecycle
lifecycle-text none = refl
lifecycle-text (some k) = refl

dumps-TellsKinds : TellsKinds dumps
dumps-TellsKinds e e' h =
    lifecycle-text e.event ∙ ap (λ t. lifecycle (some t)) h ∙ sym (lifecycle-text e'.event)

run-silent_example :
    IsSound (run dumps new_session calls)
    × ((was_cancelled "egg" calls ≡ false)
        ⊎ ((holds "egg" (line (run dumps new_session calls)) ≡ false)
            × (get "egg" (run dumps new_session calls).running ≡ none)))
run-silent_example = run-silent dumps dumps-TellsKinds calls "egg"

egg-was_cancelled : was_cancelled "egg" calls ≡ true
unfolding lifecycle
egg-was_cancelled = refl

new_session-IsSound : IsSound new_session
unfolding run
new_session-IsSound = run-IsSound dumps []

lifecycle-tea : lifecycle tea.event ≡ some finished
unfolding lifecycle
lifecycle-tea = refl

abbrev ringing_session : Session
ringing_session = (apply dumps new_session tea none).0

ringing_line : line ringing_session ≡ from_payload tea "tea" none ∷ []
unfolding apply get
ringing_line = refl

ringing-IsSound : IsSound ringing_session
unfolding run
ringing-IsSound = run-IsSound dumps (applies tea none ∷ [])
