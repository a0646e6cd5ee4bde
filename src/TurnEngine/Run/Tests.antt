-- ===== src/TurnEngine/Run/Tests.antt =====
-- The law of `TurnEngine.Run` at a turn whose device does not start.
use echo_voice_satellite.Prelude.{◌≤◌, ◌≡◌, refl, true, false, none, some, List, [], ◌∷◌, ◌++◌}
use echo_voice_satellite.TurnEngine.Run.{
  Answers, gives, ran, Event, offered, removed, trigger_voice_turn,
}
use echo_voice_satellite.TurnEngine.Run.Laws.{count, is_terminal, is_reply, terminals, trigger-told}

abbrev silent_device : Answers
silent_device = record {
  creates = gives tt;
  offers = gives tt;
  accepts = gives (some true);
  admission_valid = true;
  starts = gives false;
  runs = ran true;
  end_reason = none;
  no_speech = false;
  continue_conversation = false;
}

trigger-told_example :
    let r = trigger_voice_turn true silent_device in
    (count is_terminal r.0 ≡ terminals r.1)
    × (count is_reply r.0 ≤ 1)
    × (es : List Event) × (r.0 ≡ offered ∷ (es ++ removed ∷ []))
trigger-told_example = trigger-told true silent_device tt refl
