-- ===== src/LinkAuth/Tests.antt =====
-- The rules of `LinkAuth` at concrete connections.
use echo_voice_satellite.Prelude.{◌≡◌, refl, true, false, none, some}
use echo_voice_satellite.LinkAuth.{decide}
use echo_voice_satellite.LinkAuth.Laws.{decide_unknown}

refused :
    decide (some "old") (some "new") true false
    ≡ record { ok = false; reason = some "token mismatch"; stale_token = false }
unfolding decide
refused = refl

decide_unknown_example :
    (decide (some "x") (some "") true false).ok ≡ (decide none (some "") true false).ok
decide_unknown_example = decide_unknown (some "x") (some "") true false refl
