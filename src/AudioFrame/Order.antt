-- ===== src/AudioFrame/Order.antt =====
-- The receiver's sequence check over a stream.
use echo_voice_satellite.Prelude.{
  ap, ◌∙◌, ◌⊎◌, inl, inr, Bool-cases, ℕ, ◌+◌, ◌≡◌, Bool, true, false, List, [], ◌∷◌, arith, length,
  refl, nat_eq,
}
use echo_voice_satellite.Prelude.Result.{ok, >>=-eq-ok}
use echo_voice_satellite.AudioFrame.{AudioFrame, Sequence, accept, accept_all, is_eos}

-- Frames numbered one by one from `n`, of which only the last may end the stream.
abbrev pub IsStream : ℕ → List AudioFrame → Type 0
IsStream n [] = Unit
IsStream n (f ∷ fs) =
    (f.sequence ≡ n) × ((is_eos f.frame_type ≡ false) ⊎ (fs ≡ [])) × IsStream (n + 1) fs

-- The last frame ends the stream.
abbrev pub ends : List AudioFrame → Bool
ends [] = false
ends (f ∷ []) = is_eos f.frame_type
ends (f ∷ g ∷ fs) = ends (g ∷ fs)

abbrev pub waiting : ℕ → Bool → Sequence
waiting n b = record { expected = n; eos = b }

accept_next :
    (n : ℕ) (f : AudioFrame) (s : Sequence)
    → accept (waiting n false) f ≡ ok s
    → (f.sequence ≡ n) × (s ≡ waiting (n + 1) (is_eos f.frame_type))
unfolding accept
accept_next n f s h = (ground arith, ground arith)

pub accept_this :
    (n : ℕ) (f : AudioFrame)
    → f.sequence ≡ n
    → accept (waiting n false) f ≡ ok (waiting (n + 1) (is_eos f.frame_type))
unfolding accept
accept_this n f h = ground arith

accept_all_ended :
    (n : ℕ) (fs : List AudioFrame) (s : Sequence)
    → accept_all (waiting n true) fs ≡ ok s
    → (fs ≡ []) × (s ≡ waiting n true)
unfolding accept_all accept
accept_all_ended n [] s h = (refl, ground arith)
accept_all_ended n (f ∷ fs) s h = cc

-- A receiver that expects `n` and accepts a whole list of frames has seen the numbers from `n` on with
-- no gap, no repetition and no frame behind an end of stream.
pub accept_all-IsStream :
    (n : ℕ) (fs : List AudioFrame) (s : Sequence)
    → accept_all (waiting n false) fs ≡ ok s
    → IsStream n fs × (s.expected ≡ n + length fs)
unfolding accept_all
accept_all-IsStream n [] s h = (tt, ground arith)
accept_all-IsStream n (f ∷ fs) s h =
    let (s', first, rest) = >>=-eq-ok (accept (waiting n false) f) (λ s'. accept_all s' fs) h in
    let (q, e) = accept_next n f s' first in
    elim (Bool-cases (is_eos f.frame_type)) [
      | inl last ↦
          let (nil, fin) = accept_all_ended (n + 1) fs s (rw (← last, ← e) rest) in
          rw (nil, fin) ((q, inr refl, tt), omega arith)
      | inr more ↦
          let (ih, len) = accept_all-IsStream (n + 1) fs s (rw (← more, ← e) rest) in
          ((q, inl more, ih), omega arith)
    ]

-- Every such list is accepted, from a receiver that expects its first number.
pub IsStream-accept_all :
    (n : ℕ) (fs : List AudioFrame)
    → IsStream n fs
    → accept_all (waiting n false) fs ≡ ok (waiting (n + length fs) (ends fs))
unfolding accept_all
IsStream-accept_all n [] h = ap (λ k. ok (waiting k false)) (omega arith)
IsStream-accept_all n (f ∷ []) (q, e, h) = rw (accept_this n f q) refl
IsStream-accept_all n (f ∷ g ∷ fs) (q, inr e, h) = cc
IsStream-accept_all n (f ∷ g ∷ fs) (q, inl e, h) =
    rw (accept_this n f q, e)
      (IsStream-accept_all (n + 1) (g ∷ fs) h
        ∙ ap (λ k. ok (waiting k (ends (g ∷ fs)))) (omega arith))
