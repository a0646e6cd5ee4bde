-- ===== src/Accounts/Opened.antt =====
-- Which tokens open the controller, and for how long (controller/em_auth.py, controller/em_db.py).
use echo_voice_satellite.Prelude.{ℕ, String, ◌⊎◌, Option, List, [], ◌∷◌, nat_eq, string_eq, All}
use echo_voice_satellite.Prelude.Dict.{Dict}
use echo_voice_satellite.Prelude.Int.{ℤ}
use echo_voice_satellite.Accounts.Store.{Session}
use echo_voice_satellite.Accounts.Login.{Python, Auth}
use echo_voice_satellite.Accounts.Api.{Answer, Call, handle}
use echo_voice_satellite.Accounts.Sessions.{IsLogin, Lasts, Sessions}

-- What was answered, when, and the setting of the days of a session at that time, the latest first.
abbrev pub Log : Type 0
Log = List (ℕ × (Option ℤ × Answer))

unfoldable pub logged : Python → List (ℕ × Call) → Auth → Log → Log
unfolding handle
logged py [] a log = log
logged py ((now, c) ∷ cs) a log =
    let x = handle py now c a in logged py cs x.0 ((now, (a.db.session_expiry_days, x.1)) ∷ log)

-- A login of the user was answered with the token, and the token lasts until `expires`: for the days that were set
-- when it was answered, from then on.
abbrev pub Opened : ℕ → String → ℕ → Log → Type 0
Opened n token expires [] = ⊥
Opened n token expires ((now, (days, x)) ∷ log) =
    (IsLogin n token x × Lasts days now expires) ⊎ Opened n token expires log

abbrev pub Rows : Log → Dict String Session → Type 0
Rows log m = All (λ (t, s). Opened s.user_id t s.expires_at log) m
