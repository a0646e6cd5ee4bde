-- ===== src/Timers/Line.antt =====
-- The finished alarms of a session as one line, the ringing one first, and what the operations of
-- controller/em_timers.py make of it.
use echo_voice_satellite.Prelude.{
  String, ◌≡◌, refl, Bool, false, Option, none, some, List, [], ◌∷◌, ◌++◌, arith, ◌||◌, not, length,
  select, any, length-select-le, if◌then◌else◌, ◌==◌, nat_eq, string_eq, eq_iff,
}
use echo_voice_satellite.Timers.{
  TimerRecord, Session, names, drop_current, remove_finished, line_of,
}

abbrev pub line : Session → List TimerRecord
line s = line_of s.current s.queue

abbrev pub holds : String → List TimerRecord → Bool
holds id ts = any (names id) ts

-- The line with the alarms of a timer taken out.
abbrev pub without : String → List TimerRecord → List TimerRecord
without id ts = select (λ t. not (names id t)) ts

-- No timer stands twice in the line.
abbrev pub Distinct : List TimerRecord → Type 0
Distinct [] = Unit
Distinct (t ∷ ts) = (holds t.timer_id ts ≡ false) × Distinct ts

pub holds-without :
    (id j : String) (ts : List TimerRecord)
    → holds j (without id ts) ≡ (if id == j then false else holds j ts)
holds-without id j [] = ground arith
holds-without id j (t ∷ ts) =
    ground (arith, holds-without id j ts, eq_iff t.timer_id id, eq_iff t.timer_id j, eq_iff id j)

pub without_absent :
    (id : String) (ts : List TimerRecord) → holds id ts ≡ false → without id ts ≡ ts
without_absent id [] h = refl
without_absent id (t ∷ ts) h = ground (arith, without_absent id ts)

pub without-Distinct :
    (id : String) (ts : List TimerRecord) → Distinct ts → Distinct (without id ts)
without-Distinct id [] d = tt
without-Distinct id (t ∷ ts) (h, d) =
    ground (arith, holds-without id t.timer_id ts, without-Distinct id ts d)

pub length-without :
    (id : String) (ts : List TimerRecord)
    → (length (without id ts) == length ts) ≡ not (holds id ts)
length-without id [] = refl
length-without id (t ∷ ts) =
    ground (arith, length-without id ts, length-select-le (λ u. not (names id u)) ts)

pub holds-append :
    (j : String) (ts : List TimerRecord) (t : TimerRecord)
    → holds j (ts ++ t ∷ []) ≡ (holds j ts || names j t)
holds-append j [] t = ground arith
holds-append j (u ∷ ts) t = ground (arith, holds-append j ts t)

pub append-Distinct :
    (ts : List TimerRecord) (t : TimerRecord)
    → Distinct ts
    → holds t.timer_id ts ≡ false
    → Distinct (ts ++ t ∷ [])
append-Distinct [] t d h = (refl, tt)
append-Distinct (u ∷ ts) t (hu, d) h = ground (
  arith,
  append-Distinct ts t d,
  holds-append u.timer_id ts t,
  eq_iff u.timer_id t.timer_id,
  eq_iff t.timer_id u.timer_id,
)

removal :
    (c : Option TimerRecord) (q : List TimerRecord) (id : String)
    → (c ≡ none → q ≡ [])
    → Distinct (line_of c q)
    → let r = drop_current c q id in
      let kept = without id r.0.1 in
      (line_of r.0.0 kept ≡ without id (line_of c q))
      × ((r.1 || not (length kept == length r.0.1)) ≡ holds id (line_of c q))
      × (r.0.0 ≡ none → kept ≡ [])
removal none [] id idle d = (refl, refl, λ e. refl)
removal none (t ∷ ts) id idle d = absurd (cc (idle refl))
removal (some t) [] id idle d = (ground arith, ground arith, λ e. ground arith)
removal (some t) (u ∷ us) id idle (hu, d) = (
  ground (arith, eq_iff u.timer_id id, eq_iff t.timer_id id, eq_iff u.timer_id t.timer_id),
  ground (arith, length-without id us, length-without id (u ∷ us)),
  λ e. ground arith,
)

-- Taking a timer out: the line loses its alarms, and the answer says whether there were any.
pub remove_finished-line :
    (s : Session) (id : String)
    → (s.current ≡ none → s.queue ≡ [])
    → Distinct (line s)
    → (line (remove_finished s id).0 ≡ without id (line s))
      × ((remove_finished s id).1 ≡ holds id (line s))
      × ((remove_finished s id).0.current ≡ none → (remove_finished s id).0.queue ≡ [])
unfolding remove_finished
remove_finished-line s id idle d = removal s.current s.queue id idle d
