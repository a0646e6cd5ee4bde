-- ===== src/Config/Tests.antt =====
-- The law of `Config` at a concrete device.
use echo_voice_satellite.Prelude.{ℕ, String, [], ◌∷◌, string_eq}
use echo_voice_satellite.Prelude.Dict.{Dict}

abbrev fleet : Dict String ℕ
fleet = ("owwThreshold", 50) ∷ ("startupVolume", 85) ∷ []

abbrev office : Dict String ℕ
office = ("owwThreshold", 60) ∷ ("startupVolume", 40) ∷ []
