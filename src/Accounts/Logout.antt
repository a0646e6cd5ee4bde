-- ===== src/Accounts/Logout.antt =====
-- That a logout is final (controller/em_api.py, controller/em_auth.py).
use echo_voice_satellite.Prelude.{ℕ, String, ◌≢◌, some, List, nat_eq, string_eq, All}
use echo_voice_satellite.Prelude.Dict.{Dict}
use echo_voice_satellite.Accounts.Store.{Session}
use echo_voice_satellite.Accounts.Api.{Call}
use echo_voice_satellite.Accounts.Sessions.{mints, Sessions}

abbrev Without : String → Dict String Session → Type 0
Without token m = All (λ (t, s). t ≢ token) m

-- No request makes this token.
abbrev pub NotMinted : String → List (ℕ × Call) → Type 0
NotMinted token cs = All (λ (now, c). mints c ≢ some token) cs
