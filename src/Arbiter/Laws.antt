-- ===== src/Arbiter/Laws.antt =====
-- One answer for each utterance (controller/em_arbiter.py).
use echo_voice_satellite.Prelude.{
  ℕ, ◌+◌, ◌≤◌, ◌<◌, String, ◌≡◌, ◌≢◌, ◌↔◌, refl, sym, subst, some, List, [], ◌∷◌, arith, eq_iff,
  ◌⊎◌, All, string_eq,
}
use echo_voice_satellite.Arbiter.{WakeArbiter, claim, release, Event, claims, releases, run}

-- A device wins a claim exactly when no other device holds one whose window is still open.
pub claim_wins :
    (a : WakeArbiter) (d w : String) (window now : ℕ)
    → a.winner ≡ some w
    → ((claim a d window now).1 ≡ d) ↔ ((w ≡ d) ⊎ (a.claimed_at + window ≤ now))
unfolding claim
claim_wins a d w window now h = (λ q. ground (arith, eq_iff w d), λ q. ground (arith, eq_iff w d))

-- Events of other devices, with claims before the end of their window since `at`.
abbrev pub Rivals : String → ℕ → List Event → Type 0
Rivals d at [] = Unit
Rivals d at (claims e window now ∷ es) = (d ≢ e) × (now < at + window) × Rivals d at es
Rivals d at (releases e ∷ es) = (d ≢ e) × Rivals d at es

abbrev pub LosesTo : String → String × String → Type 0
LosesTo d answer = answer.1 ≡ d

rival_claim :
    (d e : String) (at window now : ℕ)
    → d ≢ e
    → now < at + window
    → claim (record { winner = some d; claimed_at = at }) e window now
      ≡ (record { winner = some d; claimed_at = at }, d)
unfolding claim
rival_claim d e at window now ne h = ground (arith, eq_iff d e)

rival_release :
    (d e : String) (at : ℕ)
    → d ≢ e
    → release (record { winner = some d; claimed_at = at }) e
      ≡ record { winner = some d; claimed_at = at }
unfolding release
rival_release d e at ne = ground (arith, eq_iff d e)

-- While a device holds the claim, all that other devices claim within their windows or release changes
-- nothing: each claim is answered with the holder, who still holds it at the end.
pub run-LosesTo :
    (d : String) (at : ℕ) (es : List Event)
    → Rivals d at es
    → let r = run (record { winner = some d; claimed_at = at }) es in
      All (LosesTo d) r.1 × (r.0 ≡ record { winner = some d; claimed_at = at })
unfolding run
run-LosesTo d at [] h = (tt, refl)
run-LosesTo d at (claims e window now ∷ es) (ne, lt, h) =
    rw (rival_claim d e at window now ne lt, All)
      (let r = run-LosesTo d at es h in ((refl, r.0), r.1))
run-LosesTo d at (releases e ∷ es) (ne, h) =
    subst
      (λ a.
        All (LosesTo d) (run a es).1 × ((run a es).0 ≡ record { winner = some d; claimed_at = at }))
      (sym (rival_release d e at ne)) (run-LosesTo d at es h)
