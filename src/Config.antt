-- ===== src/Config.antt =====
-- controller/em_config_sections.py: which configuration of a device is the fleet's and which its own. A
-- value is of any type; the sections and their keys are those of the code.
pub mod Laws
mod Tests
use echo_voice_satellite.Prelude.{
  ℕ, String, Bool, true, false, Option, none, some, List, [], ◌∷◌, ◌++◌, map, elem, any, select,
  length, if◌then◌else◌, ◌==◌, string_eq, nat_eq,
}
use echo_voice_satellite.Prelude.Dict.{Dict, get, put}

abbrev pub sections : List (String × List String)
sections =
    (
      "playback",
      "eqBands" ∷ "eqLoudness" ∷ "ttsGainDb" ∷ "outputGainDb" ∷ "duckDb" ∷ "limiterEnabled"
          ∷ "limiterRelease" ∷ "bassGuardEnabled" ∷ "bassGuardDb" ∷ [],
    )
    ∷ (
      "wakeword",
      "owwModel" ∷ "owwThreshold" ∷ "owwPatienceFrames" ∷ "bargeInEnabled" ∷ "bargeInThreshold"
          ∷ "wakeArbitrationMs" ∷ "noSpeechTimeoutMs" ∷ "wakeReplayFrames" ∷ "saveWakeCaptures"
          ∷ "wakeCaptureSec" ∷ "wakeNearMissFloor" ∷ [],
    )
    ∷ (
      "stopword",
      "stopModel" ∷ "stopThreshold" ∷ "saveStopCaptures" ∷ "stopCaptureSec" ∷ "stopNearMissFloor"
          ∷ [],
    )
    ∷ ("microphones", "afeMicGainDb" ∷ "saveUtterances" ∷ [])
    ∷ (
      "ring",
      "ledScene" ∷ "ledListenColor" ∷ "ledThinkColor" ∷ "meterAttack" ∷ "meterDecay" ∷ "meterFloor"
          ∷ "meterGamma" ∷ "meterRef" ∷ "meterCurve" ∷ [],
    )
    ∷ (
      "advanced",
      "vadThreshold" ∷ "vadSpeechMs" ∷ "vadSilenceMs" ∷ "buttonSingleTapEvent" ∷ "buttonMultiTapMs"
          ∷ [],
    )
    ∷ ("bluetooth", "bleProxyEnabled" ∷ [])
    ∷ []

abbrev pub state_keys : List String
state_keys = "startupVolume" ∷ []

abbrev pub section_ids : List String
section_ids = map (λ s. s.0) sections

-- `SECTIONS.get(sid)`, with no keys for an unknown id
pub section_keys : List (String × List String) → String → List String
section_keys [] sid = []
section_keys ((id, keys) ∷ rest) sid = if id == sid then keys else section_keys rest sid

-- `keys_for`, as a list whose order and repetitions do not matter to its user
pub keys_for : List String → List String
keys_for [] = []
keys_for (sid ∷ sids) = section_keys sections sid ++ keys_for sids

pub normalise : List String → List String
normalise given = select (λ sid. elem sid given) section_ids

module _ {ℓ} {V : Type ℓ} where
  -- The values of the device for some keys, over a configuration.
  pub overlay : List String → Dict String V → Dict String V → Dict String V
  overlay [] device_cfg effective = effective
  overlay (key ∷ keys) device_cfg effective = elim (get key device_cfg) [
    | none ↦ overlay keys device_cfg effective
    | some v ↦ overlay keys device_cfg (put key v effective)
  ]

  pub merge : Dict String V → Dict String V → List String → Dict String V
  merge global_cfg device_cfg section_ids =
      overlay state_keys device_cfg (overlay (keys_for section_ids) device_cfg global_cfg)

-- What the dashboard shows: the number of sections of the device's own; none is "Fleet".
pub summarise : List String → Option ℕ
summarise given = let n = length (normalise given) in if n == 0 then none else some n
