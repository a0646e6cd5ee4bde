-- ===== src/Clock/Probes.antt =====
-- What the accepted probes tell (controller/em_clock.py).
use echo_voice_satellite.Prelude.{
  ℕ, ◌+◌, ◌-◌, ◌*◌, ◌≤◌, ◌≡◌, refl, true, not, ◌&&◌, ◌||◌, Option, none, some, List, [], ◌∷◌,
  length, length-append, drop, All, All-append, ltb, leb, nat_eq, Bool-cases, inl, inr, arith,
}
use echo_voice_satellite.Prelude.Int.{ℤ, pos, negsuc, pos_part, neg_part}
use echo_voice_satellite.Clock.{
  ClockSample, ClockSync, new_clock, append_bounded, sample_of, update_stamps, Stamp, stamp,
  update_given, update,
}

-- The device's clock is `ahead` in front of the controller's or `behind` it, a probe takes `out` to the device
-- and `back` from it.
abbrev pub Timing : ℕ → ℕ → ℕ → ℕ → ℕ → ℕ → ℕ → ℕ → Type 0
Timing ahead behind out back t1 t2 t3 t4 =
    (t2 + behind ≡ t1 + ahead + out) × (t4 + ahead ≡ t3 + behind + back)

-- A sample's offset is wrong by at most half of its round trip: the doubled offset differs from twice the true
-- one by no more than the round-trip time, which is what the two ways took together.
pub sample-error :
    (ahead behind out back t1 t2 t3 t4 : ℕ)
    → t2 ≤ t3
    → t1 ≤ t4
    → Timing ahead behind out back t1 t2 t3 t4
    → let s = sample_of t1 t2 t3 t4 in
      (s.rtt_us ≡ out + back)
      × (pos_part s.twice_offset_us + 2 * behind
          ≤ neg_part s.twice_offset_us + 2 * ahead + s.rtt_us)
      × (neg_part s.twice_offset_us + 2 * ahead
          ≤ pos_part s.twice_offset_us + 2 * behind + s.rtt_us)
sample-error ahead behind out back t1 t2 t3 t4 d c (o, b) = ground arith

accepted_eq :
    (c : ClockSync) (t1 t2 t3 t4 : ℕ)
    → (update_stamps c t1 t2 t3 t4).1 ≡ true
    → ((update_stamps c t1 t2 t3 t4).0.samples
        ≡ append_bounded c.max_samples c.samples (sample_of t1 t2 t3 t4))
      × (t1 ≤ t4)
      × (t2 ≤ t3)
      × (1 ≤ t4 - t1 - (t3 - t2))
      × (t4 - t1 - (t3 - t2) ≤ c.max_rtt_us)
unfolding update_stamps
accepted_eq c t1 t2 t3 t4 h = ground arith

-- A probe that is accepted adds the sample of its four time stamps, whose round trip is within the limit; its
-- offset is wrong by at most half of that round trip, however the network splits it between the two ways.
pub update-error :
    (c : ClockSync) (ahead behind out back t1 t2 t3 t4 : ℕ)
    → Timing ahead behind out back t1 t2 t3 t4
    → (update c (some (pos t1)) (some (pos t2)) (some (pos t3)) (some (pos t4))).1 ≡ true
    → let c' = (update c (some (pos t1)) (some (pos t2)) (some (pos t3)) (some (pos t4))).0 in
      let s = sample_of t1 t2 t3 t4 in
      (c'.samples ≡ append_bounded c.max_samples c.samples s)
      × (s.rtt_us ≡ out + back)
      × (s.rtt_us ≤ c.max_rtt_us)
      × (pos_part s.twice_offset_us + 2 * behind
          ≤ neg_part s.twice_offset_us + 2 * ahead + s.rtt_us)
      × (neg_part s.twice_offset_us + 2 * ahead
          ≤ pos_part s.twice_offset_us + 2 * behind + s.rtt_us)
unfolding update
update-error c ahead behind out back t1 t2 t3 t4 h a =
    let (adds, forwards, device, positive, fits) = accepted_eq c t1 t2 t3 t4 a in
    let (rtt, above, below) = sample-error ahead behind out back t1 t2 t3 t4 device forwards h in
    (adds, rtt, fits, above, below)

abbrev pub HasRtt : ℕ → ClockSample → Type 0
HasRtt most s = (1 ≤ s.rtt_us) × (s.rtt_us ≤ most)

pub record IsBounded (c : ClockSync) : Type 0 where
  pub limits : (1 ≤ c.max_rtt_us) × (2 ≤ c.min_samples) × (c.min_samples ≤ c.max_samples)
  pub few : length c.samples ≤ c.max_samples
  pub near : All (HasRtt c.max_rtt_us) c.samples

All-drop : (P : ClockSample → Type 0) (xs : List ClockSample) → All P xs → All P (drop 1 xs)
All-drop P [] h = tt
All-drop P (x ∷ xs) (p, h) = h

length-drop1 : (xs : List ClockSample) → length (drop 1 xs) ≡ length xs - 1
length-drop1 [] = refl
length-drop1 (x ∷ xs) = omega arith

reject-IsBounded : (c : ClockSync) (n : ℕ) → IsBounded c → IsBounded (record c { rejected = n })
reject-IsBounded c n h = record { limits = h.limits; few = h.few; near = h.near }

append-IsBounded :
    (c : ClockSync) (s : ClockSample)
    → IsBounded c
    → HasRtt c.max_rtt_us s
    → IsBounded (record c { samples = append_bounded c.max_samples c.samples s })
append-IsBounded c s h r = elim (Bool-cases (ltb (length c.samples) c.max_samples)) [
  | inl room ↦ rw room (record {
    limits = h.limits;
    few = ground (arith, room, length-append c.samples (s ∷ []));
    near = All-append (HasRtt c.max_rtt_us) c.samples (s ∷ []) h.near (r, tt);
  })
  | inr full ↦ rw full (record {
    limits = h.limits;
    few = omega (
      arith,
      h.few,
      h.limits.1,
      h.limits.2,
      length-drop1 c.samples,
      length-append (drop 1 c.samples) (s ∷ []),
    );
    near =
        All-append (HasRtt c.max_rtt_us) (drop 1 c.samples) (s ∷ [])
          (All-drop (HasRtt c.max_rtt_us) c.samples h.near) (r, tt);
  })
]

update_stamps-IsBounded :
    (c : ClockSync) (t1 t2 t3 t4 : ℕ) → IsBounded c → IsBounded (update_stamps c t1 t2 t3 t4).0
unfolding update_stamps
update_stamps-IsBounded c t1 t2 t3 t4 h =
    let s = sample_of t1 t2 t3 t4 in
    elim (Bool-cases (not (ltb t1 t4 && leb t2 t3))) [
      | inl wrong ↦ rw (wrong, update_stamps) (reject-IsBounded c (c.rejected + 1) h)
      | inr ordered ↦
          elim (Bool-cases (leb (t4 - t1) (t3 - t2) || ltb c.max_rtt_us (t4 - t1 - (t3 - t2)))) [
            | inl slow ↦ rw (ordered, slow, update_stamps) (reject-IsBounded c (c.rejected + 1) h)
            | inr good ↦
                rw (ordered, good, update_stamps)
                  (append-IsBounded c s h (ground arith, ground arith))
          ]
    ]

-- A probe, as it is received.
abbrev pub Probe : Type 0
Probe = Stamp × Stamp × Stamp × Stamp

pub update_all : ClockSync → List Probe → ClockSync
update_all c [] = c
update_all c ((s1, s2, s3, s4) ∷ ps) = update_all (update c s1 s2 s3 s4).0 ps

given-IsBounded :
    (c : ClockSync) (o1 o2 o3 o4 : Option ℕ)
    → IsBounded c
    → IsBounded (update_given c o1 o2 o3 o4).0
given-IsBounded c (some t1) (some t2) (some t3) (some t4) h =
    update_stamps-IsBounded c t1 t2 t3 t4 h
given-IsBounded c none o2 o3 o4 h = reject-IsBounded c (c.rejected + 1) h
given-IsBounded c (some t1) none o3 o4 h = reject-IsBounded c (c.rejected + 1) h
given-IsBounded c (some t1) (some t2) none o4 h = reject-IsBounded c (c.rejected + 1) h
given-IsBounded c (some t1) (some t2) (some t3) none h = reject-IsBounded c (c.rejected + 1) h

update-IsBounded :
    (c : ClockSync) (s1 s2 s3 s4 : Stamp) → IsBounded c → IsBounded (update c s1 s2 s3 s4).0
unfolding update
update-IsBounded c s1 s2 s3 s4 h = given-IsBounded c (stamp s1) (stamp s2) (stamp s3) (stamp s4) h

updates-IsBounded : (c : ClockSync) (ps : List Probe) → IsBounded c → IsBounded (update_all c ps)
unfolding update_all
updates-IsBounded c [] h = h
updates-IsBounded c ((s1, s2, s3, s4) ∷ ps) h =
    updates-IsBounded (update c s1 s2 s3 s4).0 ps (update-IsBounded c s1 s2 s3 s4 h)

new_clock-IsBounded :
    (max_rtt max_samples min_samples span : ℤ) (c : ClockSync)
    → new_clock max_rtt max_samples min_samples span ≡ some c
    → IsBounded c
unfolding new_clock
new_clock-IsBounded (pos r) (pos m) (pos n) (pos s) c h = ground arith
new_clock-IsBounded (negsuc r) m n s c h = cc
new_clock-IsBounded (pos r) (negsuc m) n s c h = cc
new_clock-IsBounded (pos r) (pos m) (negsuc n) s c h = cc
new_clock-IsBounded (pos r) (pos m) (pos n) (negsuc s) c h = cc

-- Whatever probes arrive, malformed ones among them, a synchronizer that was built within its limits keeps no
-- more samples than it may, each of a positive round trip within the limit.
pub update_all-IsBounded :
    (max_rtt max_samples min_samples span : ℤ) (c : ClockSync) (ps : List Probe)
    → new_clock max_rtt max_samples min_samples span ≡ some c
    → IsBounded (update_all c ps)
update_all-IsBounded max_rtt max_samples min_samples span c ps h =
    updates-IsBounded c ps (new_clock-IsBounded max_rtt max_samples min_samples span c h)
