-- ===== src/Announce/Laws.antt =====
-- What Home Assistant is told of an announcement (controller/em_announce.py).
use echo_voice_satellite.Prelude.{
  ℕ, String, ◌≡◌, ◌≢◌, ◌↔◌, refl, Bool, true, false, Option, none, some, List, [], ◌∷◌, arith,
  eq_iff, string_eq,
}
use echo_voice_satellite.Announce.{
  Call, returns, raises, times_out, is_cancelled, is_not_false, play_pcm, play_media, report, run,
}

-- The audio was fetched, there is a player, and it did not say that it failed.
abbrev pub IsPlayed : Call (List ℕ) → Option (Call (Option Bool)) → Type 0
IsPlayed (returns (b ∷ pcm)) (some (returns answer)) = is_not_false answer ≡ true
IsPlayed _ _ = ⊥

reports : (r : Call Bool) → ((report r).0 ≡ true ∷ []) ↔ (r ≡ returns true)
unfolding report
reports (returns true) = (λ h. refl, λ h. refl)
reports (returns false) = (λ h. ground arith, λ h. ground arith)
reports raises = (λ h. ground arith, λ h. ground arith)
reports times_out = (λ h. ground arith, λ h. ground arith)
reports is_cancelled = (λ h. ground arith, λ h. ground arith)

reports_once : (r : Call Bool) → (ok : Bool) × ((report r).0 ≡ ok ∷ [])
unfolding report
reports_once (returns b) = (b, refl)
reports_once raises = (false, refl)
reports_once times_out = (false, refl)
reports_once is_cancelled = (false, refl)

plays :
    (f : Call (List ℕ)) (p : Option (Call (Option Bool)))
    → (play_media f p ≡ returns true) ↔ IsPlayed f p
unfolding play_media play_pcm
plays raises p = (λ h. ground arith, λ h. elim h [ ])
plays times_out p = (λ h. ground arith, λ h. elim h [ ])
plays is_cancelled p = (λ h. ground arith, λ h. elim h [ ])
plays (returns []) p = (λ h. ground arith, λ h. elim h [ ])
plays (returns (b ∷ pcm)) none = (λ h. ground arith, λ h. elim h [ ])
plays (returns (b ∷ pcm)) (some (returns none)) = (λ h. refl, λ h. refl)
plays (returns (b ∷ pcm)) (some (returns (some true))) = (λ h. refl, λ h. refl)
plays (returns (b ∷ pcm)) (some (returns (some false))) = (λ h. ground arith, λ h. ground arith)
plays (returns (b ∷ pcm)) (some raises) = (λ h. ground arith, λ h. elim h [ ])
plays (returns (b ∷ pcm)) (some times_out) = (λ h. ground arith, λ h. elim h [ ])
plays (returns (b ∷ pcm)) (some is_cancelled) = (λ h. ground arith, λ h. elim h [ ])

-- The end of an announcement that names its audio is reported exactly once, whatever the callbacks do; and
-- it is reported as a success exactly if the audio was fetched, was not empty, and was played.
pub run_reports :
    (media_id : String) (f : Call (List ℕ)) (p : Option (Call (Option Bool)))
    → media_id ≢ ""
    → ((ok : Bool) × ((run media_id f p).0 ≡ ok ∷ []))
      × (((run media_id f p).0 ≡ true ∷ []) ↔ IsPlayed f p)
unfolding run
run_reports media_id f p named =
    let same : run media_id f p ≡ report (play_media f p) = ground (arith, eq_iff media_id "") in
    let (ok, once) = reports_once (play_media f p) in
    let (a, b) = reports (play_media f p) in
    let (c, d) = plays f p in rw same ((ok, once), (λ h. c (a h), λ h. b (d h)))
