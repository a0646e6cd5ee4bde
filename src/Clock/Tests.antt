-- ===== src/Clock/Tests.antt =====
-- The laws of `Clock` at concrete probes.
use echo_voice_satellite.Prelude.{◌+◌, ◌*◌, ◌≤◌, ◌≡◌, refl, true, none, some, List, [], ◌∷◌, nat_eq}
use echo_voice_satellite.Prelude.Int.{pos, negsuc, pos_part, neg_part}
use echo_voice_satellite.Clock.{
  ClockSync, new_clock, append_bounded, sample_of, update_stamps, update,
}
use echo_voice_satellite.Clock.Probes.{
  IsBounded, Probe, update_all, update-error, update_all-IsBounded,
}

abbrev clock : ClockSync
clock = record {
  max_rtt_us = 200000;
  max_samples = 32;
  min_samples = 4;
  min_span_us = 500000;
  samples = [];
  rejected = 0;
}

built : new_clock (pos 200000) (pos 32) (pos 4) (pos 500000) ≡ some clock
unfolding new_clock
built = refl

-- The device is 7 s behind; the probe takes 3 ms to it and 1 ms back.
took :
    (update clock
      (some (pos 9000000))
      (some (pos 2003000))
      (some (pos 2003500))
      (some (pos 9004500))).1
    ≡ true
unfolding update update_stamps
took = refl

update-error_example :
    let c =
      (update clock
        (some (pos 9000000))
        (some (pos 2003000))
        (some (pos 2003500))
        (some (pos 9004500))).0 in
    let s = sample_of 9000000 2003000 2003500 9004500 in
    (c.samples ≡ append_bounded 32 [] s)
    × (s.rtt_us ≡ 3000 + 1000)
    × (s.rtt_us ≤ 200000)
    × (pos_part s.twice_offset_us + 2 * 7000000 ≤ neg_part s.twice_offset_us + 2 * 0 + s.rtt_us)
    × (neg_part s.twice_offset_us + 2 * 0 ≤ pos_part s.twice_offset_us + 2 * 7000000 + s.rtt_us)
update-error_example =
    update-error clock 0 7000000 3000 1000 9000000 2003000 2003500 9004500 (refl, refl) took

abbrev probes : List Probe
probes =
    (some (pos 5), some (pos 90), some (pos 91), some (pos 30))
    ∷ (none, some (negsuc 0), none, none)
    ∷ []

update_all-IsBounded_example : IsBounded (update_all clock probes)
update_all-IsBounded_example =
    update_all-IsBounded (pos 200000) (pos 32) (pos 4) (pos 500000) clock probes built
