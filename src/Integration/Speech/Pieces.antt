-- ===== src/Integration/Speech/Pieces.antt =====
-- The frames that speech is cut into (hacs/custom_components/echo_voice_satellite/tts_stream.py).
use echo_voice_satellite.Prelude.{
  ℕ, zero, suc, ◌+◌, ◌%◌, ◌≤◌, ◌<◌, min, ◌≡◌, ◌≢◌, refl, sym, ap, ◌∙◌, false, Bool-cases, inl, inr,
  none, some, List, [], ◌∷◌, ◌++◌, All, All-append, concat, concat-append, append_nil, take-drop,
  length, length-take, length-append, take, drop, ltb, ◌==◌, nat_eq, arith,
}
use mathlib.Core.List.{append_assoc}
use echo_voice_satellite.Prelude.Result.{ok}
use echo_voice_satellite.AudioFrame.{encode_frame, header, tts_pcm, tts_frame_bytes}
use echo_voice_satellite.Integration.{send_tts}
use echo_voice_satellite.Integration.Speech.{Speech, Done, usable, send_piece, send_pieces, or_else}

-- The payload of a speech frame: whole samples, one at least and half a second at most.
abbrev pub IsPiece : List ℕ → Type 0
IsPiece p = (1 ≤ length p) × (length p ≤ tts_frame_bytes) × (length p % 2 ≡ 0)

-- The messages of pieces that are numbered from `n`.
abbrev pub wire : ℕ → List (List ℕ) → List (List ℕ)
wire n [] = []
wire n (p ∷ ps) = (header tts_pcm n ++ p) ∷ wire (n + 1) ps

pub wire_next :
    (n : ℕ) (ps : List (List ℕ)) (p : List ℕ)
    → wire n (ps ++ p ∷ []) ≡ wire n ps ++ (header tts_pcm (n + length ps) ++ p) ∷ []
wire_next n [] p = ap (λ k. (header tts_pcm k ++ p) ∷ []) (omega arith)
wire_next n (q ∷ ps) p =
    ap (λ r. (header tts_pcm n ++ q) ∷ r)
      (wire_next (n + 1) ps p
        ∙ ap (λ k. wire (n + 1) ps ++ (header tts_pcm k ++ p) ∷ []) (omega arith))

-- A conversion that got `input` so far and has sent `ps`; nothing is lost between them.
pub record IsAt (input : List ℕ) (ps : List (List ℕ)) (s : Speech) : Type 0 where
  pub parts : concat ps ++ s.pending ≡ input
  pub pieces : All IsPiece ps
  pub numbered : s.channel.tts_sequence ≡ length ps
  pub unended : s.channel.sent_eos ≡ false
  pub wired : s.channel.messages ≡ wire 0 ps
  pub counted : s.sent ≡ length (concat ps)

pub encode_piece :
    (n : ℕ) (p : List ℕ)
    → IsPiece p
    → n ≤ 4294967295
    → encode_frame tts_pcm n p ≡ ok (header tts_pcm n ++ p)
unfolding encode_frame
encode_piece n [] h b = ground (arith, h)
encode_piece n (x ∷ p) h b = ground arith

pub length-pieces : (ps : List (List ℕ)) → All IsPiece ps → length ps ≤ length (concat ps)
length-pieces [] h = omega arith
length-pieces (p ∷ ps) (hp, h) =
    omega (arith, hp.0, length-append p (concat ps), length-pieces ps h)

-- The state behind a round that sends the first `n` bytes.
abbrev after_piece : ℕ → Speech → Speech
after_piece n s =
    let c = s.channel in
    let pcm = take n s.pending in
    record {
      channel = record c {
        tts_sequence = c.tts_sequence + 1;
        messages = c.messages ++ (header tts_pcm c.tts_sequence ++ pcm) ∷ [];
      };
      pending = drop n s.pending;
      sent = s.sent + length pcm;
    }

pub zero-add : (n : ℕ) → n ≡ 0 + n
zero-add n = omega arith

after_piece-IsAt :
    (input : List ℕ) (ps : List (List ℕ)) (s : Speech) (n : ℕ)
    → IsAt input ps s
    → IsPiece (take n s.pending)
    → IsAt input (ps ++ take n s.pending ∷ []) (after_piece n s)
after_piece-IsAt input ps s n h piece =
    let pcm = take n s.pending in
    let joined = concat-append ps (pcm ∷ []) ∙ ap (λ r. concat ps ++ r) (append_nil pcm) in
    record {
      parts =
          ap (λ r. r ++ drop n s.pending) joined
          ∙ append_assoc (concat ps) pcm (drop n s.pending)
          ∙ ap (λ r. concat ps ++ r) (take-drop n s.pending)
          ∙ h.parts;
      pieces = All-append IsPiece ps (pcm ∷ []) h.pieces (piece, tt);
      numbered = omega (arith, h.numbered, length-append ps (pcm ∷ []));
      unended = h.unended;
      wired =
          ap (λ r. r ++ (header tts_pcm s.channel.tts_sequence ++ pcm) ∷ []) h.wired
          ∙ ap (λ k. wire 0 ps ++ (header tts_pcm k ++ pcm) ∷ [])
              (h.numbered ∙ zero-add (length ps))
          ∙ sym (wire_next 0 ps pcm);
      counted = omega (arith, h.counted, length-append (concat ps) pcm, ap length joined);
    }

-- What the sent bytes and the pending ones are in all.
pub total :
    (input : List ℕ) (ps : List (List ℕ)) (s : Speech)
    → IsAt input ps s
    → s.sent + length s.pending ≡ length input
total input ps s h =
    omega (arith, h.counted, length-append (concat ps) s.pending, ap length h.parts)

pub or_else-none : (d rest : Done) → d.1 ≡ none → or_else d rest ≡ rest
or_else-none (s, none) rest h = refl
or_else-none (s, some e) rest h = cc

module _ (max_bytes : ℕ) (numbers : max_bytes ≤ 4294967295) (input : List ℕ)
    (within : length input ≤ max_bytes) where
  -- A round sends one more piece, and leaves less.
  send_piece-IsAt :
      (ps : List (List ℕ)) (s : Speech)
      → IsAt input ps s
      → usable s.pending ≢ 0
      → (qs : List (List ℕ)) × IsAt input qs (send_piece max_bytes s).0
        × ((send_piece max_bytes s).1 ≡ none)
        × (length (send_piece max_bytes s).0.pending < length s.pending)
  unfolding send_piece send_tts
  send_piece-IsAt ps s h ne =
      let n = min tts_frame_bytes (usable s.pending) in
      let pcm = take n s.pending in
      let long = length-take n s.pending (omega arith) in
      let size = sym (length-append pcm (drop n s.pending)) ∙ ap length (take-drop n s.pending) in
      let piece : IsPiece pcm = (omega arith, omega arith, omega arith) in
      let few = length-pieces ps h.pieces in
      let coded =
        encode_piece s.channel.tts_sequence pcm piece
          (omega (arith, h.numbered, h.counted, total input ps s h)) in
      let room : ltb max_bytes (s.sent + length pcm) ≡ false = ground (arith, total input ps s h) in
      rw (room, h.unended, coded, send_piece, send_tts)
        (
          ps ++ pcm ∷ [],
          rw (← h.unended) (after_piece-IsAt input ps s n h piece),
          refl,
          omega arith,
        )

  -- With a unit of fuel for each byte the rounds go on until no whole sample is left.
  pub send_pieces-IsAt :
      (fuel : ℕ) (ps : List (List ℕ)) (s : Speech)
      → IsAt input ps s
      → length s.pending ≤ fuel
      → (qs : List (List ℕ)) × IsAt input qs (send_pieces fuel max_bytes s).0
        × ((send_pieces fuel max_bytes s).1 ≡ none)
        × (usable (send_pieces fuel max_bytes s).0.pending ≡ 0)
  unfolding send_pieces
  send_pieces-IsAt zero ps s h enough = (ps, h, refl, omega arith)
  send_pieces-IsAt (suc fuel) ps s h enough = elim (Bool-cases (usable s.pending == 0)) [
    | inl done ↦ rw (done, send_pieces) (ps, h, refl, ground arith)
    | inr more ↦
        let (qs, at, fine, less) = send_piece-IsAt ps s h (ground arith) in
        let rest = send_pieces-IsAt fuel qs (send_piece max_bytes s).0 at (omega arith) in
        rw
          (
            more,
            send_pieces,
            or_else-none (send_piece max_bytes s)
                (send_pieces fuel max_bytes (send_piece max_bytes s).0) fine,
          )
          rest
  ]
