-- ===== src/Integration/Speech/Ending.antt =====
-- When a conversion stops and when it ends the stream
-- (hacs/custom_components/echo_voice_satellite/tts_stream.py).
use echo_voice_satellite.Prelude.{
  ℕ, zero, suc, ◌+◌, ◌≤◌, ◌<◌, ◌≡◌, ◌≢◌, refl, sym, ap, ◌∙◌, Bool, true, false, Bool-cases, inl,
  inr, none, some, List, [], ◌∷◌, length, length-append, length-take, take-drop, take, drop, min,
  ◌==◌, nat_eq, arith,
}
use echo_voice_satellite.Prelude.Result.{Result, ok, err, Result-cases}
use echo_voice_satellite.AudioFrame.{encode_frame, tts_eos, tts_pcm, tts_frame_bytes}
use echo_voice_satellite.Integration.{new_channel, send_tts, send_tts_eos}
use echo_voice_satellite.Integration.Speech.{
  Process, Speech, SpeechError, Done, usable, send_piece, send_pieces, or_else, extend, send_reads,
  finish, stream_result_to_audio,
}

send_piece-pending :
    (max_bytes : ℕ) (s : Speech)
    → (send_piece max_bytes s).0.pending ≡ drop (min tts_frame_bytes (usable s.pending)) s.pending
unfolding send_piece send_tts
send_piece-pending max_bytes s =
    let n = min tts_frame_bytes (usable s.pending) in
    elim (Result-cases (encode_frame tts_pcm s.channel.tts_sequence (take n s.pending))) [
      | inl (x, e) ↦ ground (arith, e)
      | inr (raw, e) ↦ ground (arith, e)
    ]

-- A round shortens what is pending, whether it sends or raises.
send_piece-shortens :
    (max_bytes : ℕ) (s : Speech)
    → usable s.pending ≢ 0
    → length (send_piece max_bytes s).0.pending < length s.pending
send_piece-shortens max_bytes s ne =
    let n = min tts_frame_bytes (usable s.pending) in
    let long = length-take n s.pending (omega arith) in
    let size : length (take n s.pending) + length (drop n s.pending) ≡ length s.pending =
      sym (length-append (take n s.pending) (drop n s.pending))
      ∙ ap length (take-drop n s.pending) in
    rw (send_piece-pending max_bytes s) (omega arith)

or_else-stops :
    (d rest : Done)
    → (rest.1 ≡ none → usable rest.0.pending ≡ 0)
    → (or_else d rest).1 ≡ none
    → usable (or_else d rest).0.pending ≡ 0
or_else-stops (s, none) rest h q = h q
or_else-stops (s, some e) rest h q = cc

-- The inner loop terminates: from a unit of fuel for each pending byte on, more fuel changes nothing, and if
-- no exception ends the loop then less than a sample is left, so its condition fails.
pub send_pieces-stops :
    (f g max_bytes : ℕ) (s : Speech)
    → length s.pending ≤ f
    → length s.pending ≤ g
    → (send_pieces f max_bytes s ≡ send_pieces g max_bytes s)
      × ((send_pieces f max_bytes s).1 ≡ none → usable (send_pieces f max_bytes s).0.pending ≡ 0)
unfolding send_pieces
send_pieces-stops zero zero max_bytes s hf hg = (refl, λ h. omega arith)
send_pieces-stops zero (suc g) max_bytes s hf hg = (ground arith, λ h. omega arith)
send_pieces-stops (suc f) zero max_bytes s hf hg = (ground arith, λ h. ground arith)
send_pieces-stops (suc f) (suc g) max_bytes s hf hg = elim (Bool-cases (usable s.pending == 0)) [
  | inl done ↦ rw (done, send_pieces) (refl, λ h. ground arith)
  | inr more ↦
      let less = send_piece-shortens max_bytes s (ground arith) in
      let first = send_piece max_bytes s in
      let (same, stops) = send_pieces-stops f g max_bytes first.0 (omega arith) (omega arith) in
      rw (more, send_pieces, same)
        (refl, or_else-stops first (send_pieces g max_bytes first.0) (rw (← same) stops))
]

-- Rounds and reads end no stream.
send_piece-unended :
    (max_bytes : ℕ) (s : Speech)
    → s.channel.sent_eos ≡ false
    → (send_piece max_bytes s).0.channel.sent_eos ≡ false
unfolding send_piece send_tts
send_piece-unended max_bytes s h =
    let n = min tts_frame_bytes (usable s.pending) in
    elim (Result-cases (encode_frame tts_pcm s.channel.tts_sequence (take n s.pending))) [
      | inl (x, e) ↦ ground (arith, e, h)
      | inr (raw, e) ↦ ground (arith, e, h)
    ]

or_else-unended :
    (d rest : Done)
    → d.0.channel.sent_eos ≡ false
    → rest.0.channel.sent_eos ≡ false
    → (or_else d rest).0.channel.sent_eos ≡ false
or_else-unended (s, none) rest h k = k
or_else-unended (s, some e) rest h k = h

send_pieces-unended :
    (fuel max_bytes : ℕ) (s : Speech)
    → s.channel.sent_eos ≡ false
    → (send_pieces fuel max_bytes s).0.channel.sent_eos ≡ false
unfolding send_pieces
send_pieces-unended zero max_bytes s h = h
send_pieces-unended (suc fuel) max_bytes s h =
    let first = send_piece-unended max_bytes s h in
    let rest = send_pieces-unended fuel max_bytes (send_piece max_bytes s).0 first in
    ground (
      arith,
      h,
      or_else-unended (send_piece max_bytes s)
          (send_pieces fuel max_bytes (send_piece max_bytes s).0) first rest,
    )

send_reads-unended :
    (max_bytes : ℕ) (reads : List (List ℕ)) (s : Speech)
    → s.channel.sent_eos ≡ false
    → (send_reads max_bytes reads s).0.channel.sent_eos ≡ false
unfolding send_reads
send_reads-unended max_bytes [] s h = h
send_reads-unended max_bytes (chunk ∷ reads) s h =
    let s' = extend s chunk in
    let first = send_pieces (length s'.pending) max_bytes s' in
    let one = send_pieces-unended (length s'.pending) max_bytes s' h in
    let rest = send_reads-unended max_bytes reads first.0 one in
    ground (arith, h, or_else-unended first (send_reads max_bytes reads first.0) one rest)

abbrev pub has_returned : Result SpeechError ℕ → Bool
has_returned (err x) = false
has_returned (ok n) = true

finish-ends :
    (p : Process) (d : Done)
    → d.0.channel.sent_eos ≡ false
    → (finish p d).0.channel.sent_eos ≡ has_returned (finish p d).1
unfolding send_tts_eos
finish-ends p (s, some e) h = h
finish-ends p (s, none) h = elim (Result-cases (encode_frame tts_eos s.channel.tts_sequence [])) [
  | inl (x, e) ↦ ground (arith, e, h)
  | inr (raw, e) ↦ ground (arith, e, h)
]

-- Whatever the process does, and whatever the limit is, the end of the stream is sent exactly when the
-- conversion returns: a speech that breaks off is never marked as ended.
pub stream_result-ends :
    (max_bytes : ℕ) (p : Process)
    → let r = stream_result_to_audio max_bytes p new_channel in
      r.0.channel.sent_eos ≡ has_returned r.1
unfolding stream_result_to_audio
stream_result-ends max_bytes p =
    let start : Speech = record { channel = new_channel; pending = []; sent = 0 } in
    finish-ends p (send_reads max_bytes p.reads start)
      (send_reads-unended max_bytes p.reads start refl)
