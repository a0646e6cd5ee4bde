-- ===== src/Stop/Laws.antt =====
-- What the stop-arm state of controller/em_stop.py guarantees about the reports that it accepts.
use echo_voice_satellite.Prelude.{
  ℕ, ◌+◌, ◌<◌, String, ◌≡◌, refl, sym, ◌∙◌, ◌↔◌, ◌≢◌, inl, inr, Option, none, some, List, [], ◌∷◌,
  arith, eq_iff, Option-cases,
}
use echo_voice_satellite.Prelude.Int.{ℤ, pos, ◌≤ℤ◌, int_beq_iff, pos_part, neg_part}
use echo_voice_satellite.Stop.{
  Action, accept, Arm, StopState, init, arm, disarm, detected_armed, detected, expire, Call, arms,
  disarms, detects, expires, step, accepts, note, armed, disarmed, ignore,
}

infix 50 ◌<ℤ◌
abbrev pub ◌<ℤ◌ : ℤ → ℤ → Type 0
a <ℤ b = pos_part a + neg_part b < pos_part b + neg_part a

-- The report names the arm's turn, generation and phase, before the arm expires.
pub record Matches (a : Arm) (turn_id generation : ℤ) (phase : String) (now : ℕ) : Type 0 where
  pub turn : turn_id ≡ a.turn_id
  pub gen : generation ≡ a.generation
  pub ph : phase ≡ a.phase
  pub live : now < a.expires_mono

module _ (s : StopState) (a : Arm) (t g : ℤ) (p : String) (now : ℕ) where
  accept-Matches : (detected_armed s a t g p now).1.action ≡ accept → Matches a t g p now
  unfolding detected_armed
  accept-Matches h =
      ground (arith, eq_iff p a.phase, int_beq_iff t a.turn_id, int_beq_iff g a.generation)

  Matches-accept : Matches a t g p now → (detected_armed s a t g p now).1.action ≡ accept
  unfolding detected_armed
  Matches-accept m =
      ground (arith, eq_iff p a.phase, int_beq_iff t a.turn_id, int_beq_iff g a.generation)

none-some : {a : Arm} → ◌≡◌ {A = Option Arm} none (some a) → ⊥
none-some h = cc

-- The report names the arm that is held.
abbrev pub IsCurrent : Option Arm → ℤ → ℤ → String → ℕ → Type 0
IsCurrent none t g p now = ⊥
IsCurrent (some a) t g p now = Matches a t g p now

-- A report is accepted exactly when an arm is held that it matches in turn, generation and phase
-- and that has not expired.
pub detected-accept :
    (s : StopState) (t g : ℤ) (p : String) (now : ℕ)
    → ((detected s t g p now).1.action ≡ accept) ↔ IsCurrent s.arm_state t g p now
unfolding detected
detected-accept s t g p now = elim (Option-cases s.arm_state) [
  | inl e ↦ rw (e, detected) ((λ h. ground arith), λ h. absurd h)
  | inr (a, e) ↦ rw (e, detected) (accept-Matches s a t g p now, Matches-accept s a t g p now)
]

-- Generations up to `last_generation` are spent, but for the one that is armed.
pub record IsFresh (bound : ℤ) (s : StopState) : Type 0 where
  pub below : bound ≤ℤ s.last_generation
  pub current :
      (a : Arm)
      → s.arm_state ≡ some a
      → (bound <ℤ a.generation) × (a.generation ≤ℤ s.last_generation)

arm-IsFresh :
    (b : ℤ) (s : StopState) (t g : ℤ) (p : String) (e : ℕ)
    → IsFresh b s
    → IsFresh b (arm s t g p e).0
unfolding arm
arm-IsFresh b s t g p e f = record {
  below = ground (arith, f.below);
  current = λ a q. ground (arith, f.below, f.current a);
}

disarm-IsFresh : (b : ℤ) (s : StopState) (g : Option ℤ) → IsFresh b s → IsFresh b (disarm s g).0
unfolding disarm
disarm-IsFresh b s g f = record {
  below = ground (arith, f.below);
  current = λ a q. ground (arith, f.current a);
}

expire-IsFresh : (b : ℤ) (s : StopState) (now : ℕ) → IsFresh b s → IsFresh b (expire s now).0
unfolding expire
expire-IsFresh b s now f = record {
  below = ground (arith, f.below);
  current = λ a q. ground (arith, f.current a);
}

detected-IsFresh :
    (b : ℤ) (s : StopState) (t g : ℤ) (p : String) (now : ℕ)
    → IsFresh b s
    → IsFresh b (detected s t g p now).0
unfolding detected
detected-IsFresh b s t g p now f = record {
  below = ground (arith, f.below);
  current = λ a q. ground (arith, f.current a);
}

-- An acceptance drops the arm.
accept-clears :
    (s : StopState) (t g : ℤ) (p : String) (now : ℕ)
    → (detected s t g p now).1.action ≡ accept
    → ((detected s t g p now).0.arm_state ≡ none)
      × ((detected s t g p now).0.last_generation ≡ s.last_generation)
unfolding detected
accept-clears s t g p now h = (ground arith, ground arith)

current-gen :
    (b : ℤ) (s : StopState) (o : Option Arm) (t g : ℤ) (p : String) (now : ℕ)
    → IsFresh b s
    → s.arm_state ≡ o
    → IsCurrent o t g p now
    → (b <ℤ g) × (g ≤ℤ s.last_generation)
current-gen b s none t g p now f e c = absurd c
current-gen b s (some a) t g p now f e c = ground (arith, f.current a e, c.gen)

-- After an acceptance the generation itself is spent.
accept-IsFresh :
    (b : ℤ) (s : StopState) (t g : ℤ) (p : String) (now : ℕ)
    → IsFresh b s
    → (detected s t g p now).1.action ≡ accept
    → (b <ℤ g) × IsFresh g (detected s t g p now).0
accept-IsFresh b s t g p now f h =
    let r = current-gen b s s.arm_state t g p now f refl ((detected-accept s t g p now).0 h) in
    let c = accept-clears s t g p now h in
    (r.0, record { below = rw c.1 r.1; current = λ a q. absurd (none-some (sym c.0 ∙ q)) })

-- Each number above the one before it, and the first above `bound`.
abbrev pub IsAscending : ℤ → List ℤ → Type 0
IsAscending bound [] = Unit
IsAscending bound (g ∷ gs) = (bound <ℤ g) × IsAscending g gs

note-IsAscending :
    (b t g : ℤ) (p : String) (now : ℕ) (act : Action) (rest : List ℤ)
    → (act ≡ accept → (b <ℤ g) × IsAscending g rest)
    → (act ≢ accept → IsAscending b rest)
    → IsAscending b (note (detects t g p now) act rest)
note-IsAscending b t g p now accept rest hit miss = hit refl
note-IsAscending b t g p now armed rest hit miss = miss (λ e. cc)
note-IsAscending b t g p now disarmed rest hit miss = miss (λ e. cc)
note-IsAscending b t g p now ignore rest hit miss = miss (λ e. cc)

accepts_fresh :
    (b : ℤ) (s : StopState) (cs : List Call) → IsFresh b s → IsAscending b (accepts s cs)
unfolding accepts step
accepts_fresh b s [] f = tt
accepts_fresh b s (arms t g p e ∷ cs) f =
    accepts_fresh b (step s (arms t g p e)).0 cs (arm-IsFresh b s t g p e f)
accepts_fresh b s (disarms g ∷ cs) f =
    accepts_fresh b (step s (disarms g)).0 cs (disarm-IsFresh b s g f)
accepts_fresh b s (expires n ∷ cs) f =
    accepts_fresh b (step s (expires n)).0 cs (expire-IsFresh b s n f)
accepts_fresh b s (detects t g p n ∷ cs) f =
    let s' = (step s (detects t g p n)).0 in
    note-IsAscending b t g p n (detected s t g p n).1.action (accepts s' cs)
      (λ h. let r = accept-IsFresh b s t g p n f h in (r.0, accepts_fresh g s' cs r.1))
      (λ h. accepts_fresh b s' cs (detected-IsFresh b s t g p n f))

init-IsFresh : IsFresh (pos 0) init
init-IsFresh = record { below = omega arith; current = λ a q. absurd (none-some q) }

-- Over any calls on a new state, the accepted generations are positive and ascend strictly: none is
-- accepted twice, and none after a newer one.
pub accepts-IsAscending : (cs : List Call) → IsAscending (pos 0) (accepts init cs)
accepts-IsAscending cs = accepts_fresh (pos 0) init cs init-IsFresh
