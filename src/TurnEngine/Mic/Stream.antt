-- ===== src/TurnEngine/Mic/Stream.antt =====
-- What `_send_mic` of controller/em_turn_engine.py sends is a stream that a receiver accepts.
use echo_voice_satellite.Prelude.{
  ℕ, ◌+◌, ◌≡◌, refl, Bool, true, false, List-cases, inl, inr, List, [], ◌∷◌, ◌++◌, arith,
  if◌then◌else◌,
}
use echo_voice_satellite.Prelude.Result.{Result, ok, err, ◌>>=◌, Result-cases, >>=-eq-ok}
use echo_voice_satellite.AudioFrame.{
  FrameError, Sequence, start, accept, decode_frame, encode_frame, mic_pcm, mic_eos, is_eos,
}
use echo_voice_satellite.AudioFrame.Order.{waiting, accept_this}
use echo_voice_satellite.AudioFrame.Codec.{decode-encode}
use echo_voice_satellite.TurnEngine.Turn.{Turn}
use echo_voice_satellite.TurnEngine.Mic
use echo_voice_satellite.TurnEngine.Mic.{
  Item, mark, pcm, Point, initial, head, closed, returned, raised, Mic, keep, emit, forward, finish,
  marked, take_item, pump_at, pump, new_pump, Move, pumps, others, Reaches, here, then_move,
}

pub receive_one : Sequence → List ℕ → Result FrameError Sequence
receive_one s raw = do f ← decode_frame raw; accept s f

-- The other side of the socket: it decodes each message and checks its number.
pub receives : Sequence → List (List ℕ) → Result FrameError Sequence
receives s [] = ok s
receives s (raw ∷ raws) = do s' ← receive_one s raw; receives s' raws

>>=-ok : (r : Result FrameError Sequence) → (r >>= λ s. ok s) ≡ r
>>=-ok (ok s) = refl
>>=-ok (err e) = refl

receives-append :
    (s s' : Sequence) (xs : List (List ℕ)) (raw : List ℕ)
    → receives s xs ≡ ok s'
    → receives s (xs ++ raw ∷ []) ≡ receive_one s' raw
unfolding receives
receives-append s s' [] raw h =
    let e : s ≡ s' = ground arith in rw (e) (>>=-ok (receive_one s' raw))
receives-append s s' (x ∷ xs) raw h =
    let (t, first, rest) = >>=-eq-ok (receive_one s x) (λ t. receives t xs) h in
    rw (first) (receives-append t s' xs raw rest)

receives_frame :
    (n t : ℕ) (p raw : List ℕ)
    → encode_frame t n p ≡ ok raw
    → receive_one (waiting n false) raw ≡ ok (waiting (n + 1) (is_eos t))
unfolding receive_one
receives_frame n t p raw h =
    rw (decode-encode t n p raw h)
      (accept_this n (record { frame_type = t; sequence = n; payload = p }) refl)

-- Where the receiver of the messages stands.
abbrev pub is_closed : Point → Bool
is_closed closed = true
is_closed _ = false

abbrev pub receiver : Mic → Sequence
receiver m =
    if is_closed m.point
    then waiting (m.turn.mic_sequence + 1) true
    else waiting m.turn.mic_sequence false

-- The receiver accepts all that was sent, and stands where the task does.
abbrev pub IsSent : Mic → Type 0
IsSent m = receives start m.sent ≡ ok (receiver m)

open_receiver :
    (m : Mic)
    → is_closed m.point ≡ false
    → IsSent m
    → receives start m.sent ≡ ok (waiting m.turn.mic_sequence false)
open_receiver m o h = ground arith

keep-mic_sequence : (t : Turn) (p : List ℕ) → (keep t p).mic_sequence ≡ t.mic_sequence
keep-mic_sequence t p = ground arith

forward-IsSent :
    (m : Mic) (p : List ℕ) (next : Point)
    → is_closed m.point ≡ false
    → is_closed next ≡ false
    → IsSent m
    → IsSent (forward m p next)
unfolding forward
forward-IsSent m p next o q h = elim (Result-cases (encode_frame mic_pcm m.turn.mic_sequence p)) [
  | inl (e, r) ↦ rw (r, forward) (ground (arith, open_receiver m o h, keep-mic_sequence m.turn p))
  | inr (raw, r) ↦
      rw (r, forward)
        (ground (
          arith,
          keep-mic_sequence m.turn p,
          receives-append start (waiting m.turn.mic_sequence false) m.sent raw
              (open_receiver m o h),
          receives_frame m.turn.mic_sequence mic_pcm p raw r,
        ))
]

finish-IsSent : (m : Mic) → is_closed m.point ≡ false → IsSent m → IsSent (finish m)
unfolding finish
finish-IsSent m o h = elim (Result-cases (encode_frame mic_eos m.turn.mic_sequence [])) [
  | inl (e, r) ↦ rw (r, finish) (ground (arith, open_receiver m o h))
  | inr (raw, r) ↦
      rw (r, finish)
        (ground (
          arith,
          receives-append start (waiting m.turn.mic_sequence false) m.sent raw
              (open_receiver m o h),
          receives_frame m.turn.mic_sequence mic_eos [] raw r,
        ))
]

take_item-IsSent :
    (m : Mic) (item : Item) → is_closed m.point ≡ false → IsSent m → IsSent (take_item m item)
unfolding take_item
take_item-IsSent m (mark s) o h =
    finish-IsSent (record m { turn = marked m.turn s }) o (ground arith)
take_item-IsSent m (pcm p) o h = ground (arith, forward-IsSent m p head o refl h)

pump_at-IsSent : (m : Mic) (at : Point) → m.point ≡ at → IsSent m → IsSent (pump_at m at)
unfolding pump_at
pump_at-IsSent m (initial []) q h = ground arith
pump_at-IsSent m (initial (p ∷ ps)) q h =
    ground (arith, forward-IsSent m p (initial ps) (rw q refl) refl h)
pump_at-IsSent m head q h = ground (arith, finish-IsSent m (rw q refl) h)
pump_at-IsSent m Mic.waiting q h = elim (List-cases m.queue) [
  | inl e ↦ rw (e, pump_at) (ground arith)
  | inr (item, items, e) ↦
      rw (e, pump_at)
        (take_item-IsSent (record m { queue = items }) item (rw q refl) (ground arith))
]
pump_at-IsSent m closed q h = h
pump_at-IsSent m returned q h = h
pump_at-IsSent m (raised e) q h = h

Move-IsSent : (m m' : Mic) → Move m m' → IsSent m → IsSent m'
unfolding pump
Move-IsSent m m' (pumps _) h = pump_at-IsSent m m.point refl h
Move-IsSent m m' (others _ t items same) h = ground arith

Reaches-IsSent : (m m' : Mic) → Reaches m m' → IsSent m → IsSent m'
Reaches-IsSent m m' (here _) h = h
Reaches-IsSent m m' (then_move _ m1 _ s r) h = Reaches-IsSent m1 m' r (Move-IsSent m m1 s h)

-- Whatever other tasks do to the turn (but for the count of its frames) and whatever the device queues,
-- what the task has sent at any time is a stream that a receiver accepts in full: frames numbered from 0
-- with no gap, which end with at most one end of stream, and it ends if the task closed it.
pub sends_stream :
    (t : Turn) (items : List Item) (m : Mic)
    → t.mic_sequence ≡ 0
    → Reaches (new_pump t items) m
    → receives start m.sent ≡ ok (receiver m)
unfolding receives
sends_stream t items m z r = Reaches-IsSent (new_pump t items) m r (ground arith)
