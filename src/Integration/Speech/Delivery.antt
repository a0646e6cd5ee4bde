-- ===== src/Integration/Speech/Delivery.antt =====
-- What a whole conversion sends and how it ends
-- (hacs/custom_components/echo_voice_satellite/tts_stream.py).
use echo_voice_satellite.Prelude.{
  ℕ, ◌%◌, ◌≤◌, ◌≡◌, refl, sym, ap, ◌∙◌, not, Bool-cases, List-cases, inl, inr, none, some, List, [],
  ◌∷◌, ◌++◌, All, concat, append_nil, length, length-append, ◌==◌, nat_eq, arith, if◌then◌else◌,
}
use mathlib.Core.List.{append_assoc}
use echo_voice_satellite.Prelude.Result.{Result, ok, err}
use echo_voice_satellite.AudioFrame.{encode_frame, header, is_empty, tts_eos}
use echo_voice_satellite.Integration.{new_channel, send_tts_eos}
use echo_voice_satellite.Integration.Speech.{
  Process, Speech, SpeechError, Done, feeder_failed, conversion_failed, odd_payload, usable,
  send_pieces, extend, send_reads, finish, stream_result_to_audio,
}
use echo_voice_satellite.Integration.Speech.Pieces.{
  IsPiece, IsAt, wire, send_pieces-IsAt, or_else-none, length-pieces, total,
}

-- The whole output of the process: its reads up to an empty one.
abbrev pub read_all : List (List ℕ) → List ℕ
read_all [] = []
read_all (chunk ∷ reads) = let rest = read_all reads in if is_empty chunk then [] else chunk ++ rest

extend-IsAt :
    (input chunk : List ℕ) (ps : List (List ℕ)) (s : Speech)
    → IsAt input ps s
    → IsAt (input ++ chunk) ps (extend s chunk)
extend-IsAt input chunk ps s h = record {
  parts = sym (append_assoc (concat ps) s.pending chunk) ∙ ap (λ r. r ++ chunk) h.parts;
  pieces = h.pieces;
  numbered = h.numbered;
  unended = h.unended;
  wired = h.wired;
  counted = h.counted;
}

module _ (max_bytes : ℕ) (numbers : max_bytes ≤ 4294967295) where
  send_reads-IsAt :
      (reads : List (List ℕ)) (input : List ℕ) (ps : List (List ℕ)) (s : Speech)
      → IsAt input ps s
      → usable s.pending ≡ 0
      → length (input ++ read_all reads) ≤ max_bytes
      → (qs : List (List ℕ)) × IsAt (input ++ read_all reads) qs (send_reads max_bytes reads s).0
        × ((send_reads max_bytes reads s).1 ≡ none)
        × (usable (send_reads max_bytes reads s).0.pending ≡ 0)
  unfolding send_reads
  send_reads-IsAt [] input ps s h u le = rw (append_nil input) (ps, h, refl, u)
  send_reads-IsAt (chunk ∷ reads) input ps s h u le = elim (Bool-cases (is_empty chunk)) [
    | inl last ↦ rw (last, send_reads, append_nil input) (ps, h, refl, u)
    | inr more ↦
        let join = append_assoc input chunk (read_all reads) in
        let fits : length ((input ++ chunk) ++ read_all reads) ≤ max_bytes =
          rw (join) (rw more at le) in
        let now : length (input ++ chunk) ≤ max_bytes =
          omega (arith, fits, length-append (input ++ chunk) (read_all reads)) in
        let s' = extend s chunk in
        let (qs, at, fine, none_left) =
          send_pieces-IsAt max_bytes numbers (input ++ chunk) now (length s'.pending) ps s'
            (extend-IsAt input chunk ps s h) (omega arith) in
        let sent = send_pieces (length s'.pending) max_bytes s' in
        rw (more, send_reads, or_else-none sent (send_reads max_bytes reads sent.0) fine, sym join)
          (send_reads-IsAt reads (input ++ chunk) qs sent.0 at none_left fits)
  ]

-- How the conversion of an output that is within the limit ends.
abbrev pub verdict : Process → ℕ → Result SpeechError ℕ
verdict p n =
    if p.feeder_raises
    then err feeder_failed
    else if not p.exits_zero
    then err conversion_failed
    else if not (n % 2 == 0)
    then err odd_payload
    else ok n

-- The end of the stream is sent behind a success only.
abbrev pub eos_after : Result SpeechError ℕ → ℕ → List (List ℕ)
eos_after (err x) n = []
eos_after (ok k) n = header tts_eos n ∷ []

even-concat : (ps : List (List ℕ)) → All IsPiece ps → length (concat ps) % 2 ≡ 0
even-concat [] h = refl
even-concat (p ∷ ps) ((a, b, e), h) =
    omega (arith, e, length-append p (concat ps), even-concat ps h)

finish-verdict :
    (p : Process) (out : List ℕ) (ps : List (List ℕ)) (s : Speech)
    → IsAt out ps s
    → usable s.pending ≡ 0
    → length ps ≤ 4294967295
    → let r = finish p (s, none) in
      (r.1 ≡ verdict p (length out))
      × (r.0.pending ≡ s.pending)
      × (r.0.channel.messages ≡ wire 0 ps ++ eos_after (verdict p (length out)) (length ps))
unfolding send_tts_eos encode_frame
finish-verdict p out ps s h u few =
    let even = even-concat ps h.pieces in
    let sum = total out ps s h in
    let nil = append_nil (wire 0 ps) in
    elim (List-cases s.pending) [
      | inl q ↦ ground (arith, q, h.numbered, h.unended, h.wired, h.counted)
      | inr (y, ys, q) ↦ ground (arith, q, h.wired, h.counted)
    ]

finish-none : (p : Process) (d : Done) → d.1 ≡ none → finish p d ≡ finish p (d.0, none)
finish-none p (s, none) h = refl
finish-none p (s, some e) h = cc

-- A conversion on a new channel, of an output within the limit, loses nothing and makes nothing up: the
-- pieces that it sends, in order and each of whole samples and of half a second at most, are with an odd last
-- byte, if there is one, the whole output of the process. It returns the number of bytes, and sends the end of
-- the stream, if the feeder does not raise, the process exits with 0 and the output is even; else it raises
-- the error of the first of these that fails, with no end of stream.
pub stream_result-verdict :
    (max_bytes : ℕ) (p : Process)
    → max_bytes ≤ 4294967295
    → length (read_all p.reads) ≤ max_bytes
    → let r = stream_result_to_audio max_bytes p new_channel in
      let out = read_all p.reads in
      (ps : List (List ℕ)) × All IsPiece ps
      × (concat ps ++ r.0.pending ≡ out)
      × (length r.0.pending ≡ length out % 2)
      × (r.1 ≡ verdict p (length out))
      × (r.0.channel.messages ≡ wire 0 ps ++ eos_after (verdict p (length out)) (length ps))
unfolding stream_result_to_audio
stream_result-verdict max_bytes p numbers le =
    let start : Speech = record { channel = new_channel; pending = []; sent = 0 } in
    let fresh : IsAt [] [] start = record {
      parts = refl;
      pieces = tt;
      numbered = refl;
      unended = refl;
      wired = refl;
      counted = refl;
    } in
    let (ps, at, fine, done) =
      send_reads-IsAt max_bytes numbers p.reads [] [] start fresh refl le in
    let d = send_reads max_bytes p.reads start in
    let few = length-pieces ps at.pieces in
    let sum = length-append (concat ps) d.0.pending in
    let size = ap length at.parts in
    let (ends, same, messages) = finish-verdict p (read_all p.reads) ps d.0 at done (omega arith) in
    rw (finish-none p d fine) (
      ps,
      at.pieces,
      ap (λ r. concat ps ++ r) same ∙ at.parts,
      ap length same ∙ omega (arith, sum, size, even-concat ps at.pieces),
      ends,
      messages,
    )
