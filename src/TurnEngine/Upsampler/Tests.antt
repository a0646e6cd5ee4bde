-- ===== src/TurnEngine/Upsampler/Tests.antt =====
-- The laws of `TurnEngine.Upsampler` at concrete speech.
use echo_voice_satellite.Prelude.{concat, ℕ, ◌≡◌, refl, none, some, List, [], ◌∷◌, ◌++◌, map}
use echo_voice_satellite.TurnEngine.Upsampler.{upsample_24_to_48, tts_chunks}
use echo_voice_satellite.TurnEngine.Upsampler.Laws.{tts_chunks-upsample}

-- 1000 and -2
abbrev speech : List ℕ
speech = 232 ∷ 3 ∷ 254 ∷ 255 ∷ []

abbrev chunks : List (List ℕ)
chunks = (232 ∷ 3 ∷ []) ∷ (254 ∷ 255 ∷ []) ∷ []

tts_chunks-upsample_example :
    (outs : List (List ℕ)) × (tts_chunks none (map some chunks ++ (none ∷ [])) ≡ some outs)
    × (upsample_24_to_48 (concat chunks) ≡ some (concat outs))
tts_chunks-upsample_example = tts_chunks-upsample chunks [] (refl, (refl, tt))
