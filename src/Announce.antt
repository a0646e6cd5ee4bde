-- ===== src/Announce.antt =====
-- controller/em_announce.py: an announcement is fetched and played, and its end is reported to Home
-- Assistant. What the callbacks `fetch` and `play` do is an input. The timeout covers both.
pub mod Laws
mod Tests
use echo_voice_satellite.Prelude.{
  ℕ, String, Bool, true, false, Option, none, some, List, [], ◌∷◌, if◌then◌else◌, ◌==◌, string_eq,
}

-- What an awaited callback does: it returns, raises, takes longer than the timeout, or the task that waits
-- for it is cancelled.
pub data Call {ℓ} (A : Type ℓ) : Type ℓ where
  returns : A → Call A
  raises : Call A
  times_out : Call A
  is_cancelled : Call A

-- `is not False`, of a callback that may return None
abbrev pub is_not_false : Option Bool → Bool
is_not_false none = true
is_not_false (some b) = b

pub play_pcm : Option (Call (Option Bool)) → Call Bool
play_pcm none = returns false
play_pcm (some (returns b)) = returns (is_not_false b)
play_pcm (some raises) = raises
play_pcm (some times_out) = times_out
play_pcm (some is_cancelled) = is_cancelled

pub play_media : Call (List ℕ) → Option (Call (Option Bool)) → Call Bool
play_media raises play = raises
play_media times_out play = times_out
play_media is_cancelled play = is_cancelled
play_media (returns []) play = returns false
play_media (returns (b ∷ pcm)) play = play_pcm play

-- The calls of `on_finished`, and what `run` returns; `none` is the cancellation, which it passes on.
pub report : Call Bool → List Bool × Option Bool
report (returns ok) = (ok ∷ [], some ok)
report raises = (false ∷ [], some false)
report times_out = (false ∷ [], some false)
report is_cancelled = (false ∷ [], none)

pub run : String → Call (List ℕ) → Option (Call (Option Bool)) → List Bool × Option Bool
run media_id fetch play =
    let played = report (play_media fetch play) in
    if media_id == "" then report (returns false) else played
