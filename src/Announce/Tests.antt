-- ===== src/Announce/Tests.antt =====
-- The law of `Announce` at an announcement that a mute ends.
use echo_voice_satellite.Prelude.{
  String, ◌≡◌, ◌≢◌, ◌↔◌, Bool, true, false, some, [], ◌∷◌, arith, eq_iff,
}
use echo_voice_satellite.Announce.{returns, run}
use echo_voice_satellite.Announce.Laws.{IsPlayed, run_reports}

named : ◌≢◌ {A = String} "tts/1" ""
named = ground (arith, eq_iff "tts/1" "")

run_reports_example :
    ((ok : Bool) × ((run "tts/1" (returns (1 ∷ [])) (some (returns (some false)))).0 ≡ ok ∷ []))
    × (((run "tts/1" (returns (1 ∷ [])) (some (returns (some false)))).0 ≡ true ∷ [])
        ↔ IsPlayed (returns (1 ∷ [])) (some (returns (some false))))
run_reports_example = run_reports "tts/1" (returns (1 ∷ [])) (some (returns (some false))) named
