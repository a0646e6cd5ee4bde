-- ===== src/Satellite/Tests.antt =====
-- The laws of `Satellite` at concrete moves.
use echo_voice_satellite.Prelude.{◌≡◌, refl, true, some, List, [], ◌∷◌}
use echo_voice_satellite.Satellite.{
  Ownership, new_satellite, gateway_end, stt_end, error, transcribed, resume, pipeline_event,
  on_partial, Move, offers, accepts, reports, move, moves, transcript, accept, handle_wake_offer,
  after_accept, owns_turn,
}
use echo_voice_satellite.Satellite.Stale.{ended-silent}

-- The first turn that the entity takes.
abbrev first_turn : Ownership
first_turn = record { turn_id = 7; token = 0; channel = 3 }

-- The turn is taken and its text is told, and the controller has not answered yet.
abbrev telling : List Move
telling = offers 7 (some 3) ∷ accepts 7 true ∷ reports first_turn (stt_end (some "lights on")) ∷ []

abbrev replaced : List Move
replaced = offers 8 (some 4) ∷ accepts 8 true ∷ []

told : (moves telling new_satellite).sent ≡ (7, accept) ∷ (7, transcript "lights on" true) ∷ []
unfolding moves move handle_wake_offer after_accept pipeline_event owns_turn
told = refl

-- The answer to the text of the first turn comes when the second is owned, and marks the text of the second as told.
marks_other :
    (resume first_turn transcribed
      (moves replaced (gateway_end 7 true (moves telling new_satellite)))).transcript_sent
    ≡ true
unfolding moves move handle_wake_offer after_accept pipeline_event owns_turn gateway_end resume
marks_other = refl

ended-silent_example :
    (pipeline_event first_turn error
        (moves replaced (gateway_end 7 true (moves telling new_satellite)))
      ≡ moves replaced (gateway_end 7 true (moves telling new_satellite)))
    × (on_partial first_turn "lights"
          (moves replaced (gateway_end 7 true (moves telling new_satellite)))
        ≡ moves replaced (gateway_end 7 true (moves telling new_satellite)))
    × ((resume first_turn transcribed
          (moves replaced (gateway_end 7 true (moves telling new_satellite)))).sent
        ≡ (moves replaced (gateway_end 7 true (moves telling new_satellite))).sent)
unfolding moves move handle_wake_offer after_accept pipeline_event owns_turn
ended-silent_example =
    ended-silent telling replaced first_turn true error transcribed "lights"
      (moves replaced (gateway_end 7 true (moves telling new_satellite))) refl refl
