-- ===== src/Clock.antt =====
-- controller/em_clock.py: `ClockSync`, which estimates the offset of a device's clock from probes of four time
-- stamps (t1 and t4 of the controller, t2 and t3 of the device). Microseconds. The fit of a line through the
-- samples, in floats, is not modelled; an offset is kept doubled, as the integer that the code halves.
pub mod Probes
mod Tests
use echo_voice_satellite.Prelude.{
  ℕ, ◌+◌, ◌-◌, ◌*◌, ◌/◌, Bool, true, false, not, ◌&&◌, ◌||◌, Option, none, some, List, [], ◌∷◌,
  ◌++◌, length, drop, ltb, leb, if◌then◌else◌, ◌==◌, nat_eq,
}
use echo_voice_satellite.Prelude.Int.{ℤ, pos, negsuc, sub_ℕ}

pub record ClockSample : Type 0 where
  pub controller_us : ℕ
  pub twice_offset_us : ℤ
  pub rtt_us : ℕ

pub record ClockSync : Type 0 where
  pub max_rtt_us : ℕ
  pub max_samples : ℕ
  pub min_samples : ℕ
  pub min_span_us : ℕ
  pub samples : List ClockSample
  pub rejected : ℕ

-- `__init__`, which raises on limits that make no sense
unfoldable pub new_clock : ℤ → ℤ → ℤ → ℤ → Option ClockSync
new_clock (pos max_rtt) (pos max_samples) (pos min_samples) (pos span) =
    if max_rtt == 0 || ltb max_samples 2 || ltb min_samples 2 || ltb max_samples min_samples
    then none
    else some (record {
      max_rtt_us = max_rtt;
      max_samples = max_samples;
      min_samples = min_samples;
      min_span_us = span;
      samples = [];
      rejected = 0;
    })
new_clock _ _ _ _ = none

abbrev pub reset : ClockSync → ClockSync
reset c = record c { samples = []; rejected = 0 }

abbrev reject : ClockSync → ClockSync × Bool
reject c = (record c { rejected = c.rejected + 1 }, false)

-- `deque(maxlen=n).append`
abbrev pub append_bounded : ℕ → List ClockSample → ClockSample → List ClockSample
append_bounded n xs x = if ltb (length xs) n then xs ++ x ∷ [] else drop 1 xs ++ x ∷ []

abbrev pub sample_of : ℕ → ℕ → ℕ → ℕ → ClockSample
sample_of t1 t2 t3 t4 = record {
  controller_us = (t1 + t4) / 2;
  twice_offset_us = sub_ℕ (t2 + t3) (t1 + t4);
  rtt_us = t4 - t1 - (t3 - t2);
}

unfoldable pub update_stamps : ClockSync → ℕ → ℕ → ℕ → ℕ → ClockSync × Bool
update_stamps c t1 t2 t3 t4 =
    if not (ltb t1 t4 && leb t2 t3)
    then reject c
    else if leb (t4 - t1) (t3 - t2) || ltb c.max_rtt_us (t4 - t1 - (t3 - t2))
    then reject c
    else (
      record c { samples = append_bounded c.max_samples c.samples (sample_of t1 t2 t3 t4) },
      true,
    )

-- A time stamp as it is received: an integer, or something else.
abbrev pub Stamp : Type 0
Stamp = Option ℤ

abbrev pub stamp : Stamp → Option ℕ
stamp (some (pos n)) = some n
stamp _ = none

abbrev pub update_given : ClockSync → Option ℕ → Option ℕ → Option ℕ → Option ℕ → ClockSync × Bool
update_given c (some t1) (some t2) (some t3) (some t4) = update_stamps c t1 t2 t3 t4
update_given c _ _ _ _ = reject c

pub update : ClockSync → Stamp → Stamp → Stamp → Stamp → ClockSync × Bool
update c s1 s2 s3 s4 = update_given c (stamp s1) (stamp s2) (stamp s3) (stamp s4)

abbrev pub last_time : ℕ → List ClockSample → ℕ
last_time t [] = t
last_time t (x ∷ xs) = last_time x.controller_us xs

-- how far the last sample lies behind the first
abbrev pub span : List ClockSample → ℤ
span [] = pos 0
span (x ∷ xs) = sub_ℕ (last_time x.controller_us xs) x.controller_us

abbrev reaches : ℤ → ℕ → Bool
reaches (pos d) n = leb n d
reaches (negsuc d) n = false

pub synchronized : ClockSync → Bool
synchronized c =
    if ltb (length c.samples) c.min_samples then false else reaches (span c.samples) c.min_span_us
