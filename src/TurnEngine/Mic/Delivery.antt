-- ===== src/TurnEngine/Mic/Delivery.antt =====
-- What `_send_mic` of controller/em_turn_engine.py delivers of a turn that nobody disturbs.
use echo_voice_satellite.Prelude.{
  ℕ, suc, zero, ◌+◌, ◌≤◌, String, ◌≡◌, refl, sym, ap, subst, ◌∙◌, ◌↔◌, eq_iff, true, false, Option,
  none, some, List, [], ◌∷◌, ◌++◌, map, arith, length, All, nat_eq,
}
use mathlib.Core.List.{append_assoc}
use echo_voice_satellite.Prelude.Result.{ok}
use echo_voice_satellite.AudioFrame.{encode_frame, header, mic_pcm, mic_eos, mic_frame_bytes}
use echo_voice_satellite.TurnEngine.Turn.{Turn}
use echo_voice_satellite.TurnEngine.Mic.{
  Item, mark, pcm, Point, initial, head, waiting, closed, Mic, keep, forward, finish,
  vad_sentinel_timeout, marked, heard, take_item, pump_at, pump, new_pump,
}

-- The messages of a stream: a frame for each payload, numbered from `n`, and the end of the stream.
abbrev pub frames : ℕ → List (List ℕ) → List (List ℕ)
frames n [] = (header mic_eos n ++ []) ∷ []
frames n (p ∷ ps) = (header mic_pcm n ++ p) ∷ frames (n + 1) ps

abbrev pub IsMicFrame : List ℕ → Type 0
IsMicFrame p = length p ≡ mic_frame_bytes

pub pcm_encodes :
    (n : ℕ) (p : List ℕ)
    → n ≤ 4294967295
    → IsMicFrame p
    → encode_frame mic_pcm n p ≡ ok (header mic_pcm n ++ p)
unfolding encode_frame
pcm_encodes n p le h = ground arith

pub eos_encodes : (n : ℕ) → n ≤ 4294967295 → encode_frame mic_eos n [] ≡ ok (header mic_eos n ++ [])
unfolding encode_frame
eos_encodes n le = ground arith

pub pump_times : ℕ → Mic → Mic
pump_times zero m = m
pump_times (suc k) m = pump_times k (pump m)

-- The turn has its socket, is not cancelled, and skips nothing.
abbrev pub IsUndisturbed : Turn → ℕ → Type 0
IsUndisturbed t w = (t.socket ≡ some w) × (t.cancelled ≡ false) × (t.preroll_remaining ≡ 0)

-- The task is done: it has sent the payloads and the end, and has left the rest of the queue.
abbrev pub IsDone : Mic → List (List ℕ) → List Item → Mic → Type 0
IsDone m msgs rest m' =
    (m'.point ≡ closed) × (m'.sent ≡ m.sent ++ msgs) × (m'.turn.endpoint ≡ true) × (m'.queue ≡ rest)

abbrev forwarded : Mic → List ℕ → Point → Mic
forwarded m p next = record m {
  turn = record (keep m.turn p) { mic_sequence = m.turn.mic_sequence + 1 };
  sent = m.sent ++ (header mic_pcm m.turn.mic_sequence ++ p) ∷ [];
  point = next;
}

forward_frame :
    (m : Mic) (p : List ℕ) (next : Point)
    → m.turn.mic_sequence ≤ 4294967295
    → IsMicFrame p
    → forward m p next ≡ forwarded m p next
unfolding forward
forward_frame m p next le h = rw (pcm_encodes m.turn.mic_sequence p le h, forward) (ground arith)

keep-IsUndisturbed :
    (t : Turn) (p : List ℕ) (w : ℕ) → IsUndisturbed t w → IsUndisturbed (keep t p) w
keep-IsUndisturbed t p w h = ground arith

-- Two pumps take a frame off the queue and send it.
pump_frame :
    (m : Mic) (p : List ℕ) (items : List Item) (w : ℕ)
    → m.point ≡ head
    → m.queue ≡ pcm p ∷ items
    → IsUndisturbed m.turn w
    → m.turn.mic_sequence ≤ 4294967295
    → IsMicFrame p
    → pump (pump m) ≡ forwarded (record m { queue = items }) p head
unfolding pump pump_at take_item
pump_frame m p items w at q (so, ca, pre) le h =
    ground (arith, forward_frame (record m { queue = items; point = waiting }) p head le h)

pump_mark :
    (m : Mic) (s : Option String) (items : List Item) (w : ℕ)
    → m.point ≡ head
    → m.queue ≡ mark s ∷ items
    → IsUndisturbed m.turn w
    → m.turn.mic_sequence ≤ 4294967295
    → pump (pump m) ≡ record m {
      turn = marked m.turn s;
      queue = items;
      sent = m.sent ++ (header mic_eos m.turn.mic_sequence ++ []) ∷ [];
      point = closed;
    }
unfolding pump pump_at take_item finish
pump_mark m s items w at q (so, ca, pre) le = ground (arith, eos_encodes m.turn.mic_sequence le)

-- The pumps that forward a queue and then end.
abbrev pub queue_pumps : List (List ℕ) → ℕ
queue_pumps [] = 2
queue_pumps (p ∷ ps) = suc (suc (queue_pumps ps))

abbrev pub pumps_for : List (List ℕ) → List (List ℕ) → ℕ
pumps_for [] ps = suc (queue_pumps ps)
pumps_for (i ∷ is) ps = suc (pumps_for is ps)

-- From the head of the loop, the task forwards the frames of the queue up to a mark.
forwards_queue :
    (m : Mic) (ps : List (List ℕ)) (s : Option String) (rest : List Item) (w : ℕ)
    → m.point ≡ head
    → m.queue ≡ map pcm ps ++ (mark s ∷ rest)
    → IsUndisturbed m.turn w
    → All IsMicFrame ps
    → m.turn.mic_sequence + length ps ≤ 4294967295
    → IsDone m (frames m.turn.mic_sequence ps) rest (pump_times (queue_pumps ps) m)
unfolding pump_times
forwards_queue m [] s rest w at q u h le =
    rw (pump_mark m s rest w at q u (omega arith)) (refl, refl, refl, refl)
forwards_queue m (p ∷ ps) s rest w at q u (one, h) le =
    let m1 : Mic = forwarded (record m { queue = map pcm ps ++ (mark s ∷ rest) }) p head in
    let (c, sent, done, left) =
      forwards_queue m1 ps s rest w refl refl (keep-IsUndisturbed m.turn p w u) h (omega arith) in
    subst (λ n. IsDone m (frames m.turn.mic_sequence (p ∷ ps)) rest (pump_times (queue_pumps ps) n))
      (sym (pump_frame m p (map pcm ps ++ (mark s ∷ rest)) w at q u (omega arith) one))
      (
        c,
        sent
            ∙ append_assoc m.sent ((header mic_pcm m.turn.mic_sequence ++ p) ∷ [])
                (frames (m.turn.mic_sequence + 1) ps),
        done,
        left,
      )

pump_initial :
    (m : Mic) (p : List ℕ) (ps : List (List ℕ)) (w : ℕ)
    → m.point ≡ initial (p ∷ ps)
    → IsUndisturbed m.turn w
    → m.turn.mic_sequence ≤ 4294967295
    → IsMicFrame p
    → pump m ≡ forwarded m p (initial ps)
unfolding pump pump_at
pump_initial m p ps w at (so, ca, pre) le h = ground (arith, forward_frame m p (initial ps) le h)

forwards_turn :
    (m : Mic) (is ps : List (List ℕ)) (s : Option String) (rest : List Item) (w : ℕ)
    → m.point ≡ initial is
    → m.queue ≡ map pcm ps ++ (mark s ∷ rest)
    → IsUndisturbed m.turn w
    → All IsMicFrame is
    → All IsMicFrame ps
    → m.turn.mic_sequence + length is + length ps ≤ 4294967295
    → IsDone m (frames m.turn.mic_sequence (is ++ ps)) rest (pump_times (pumps_for is ps) m)
unfolding pump_times pump pump_at
forwards_turn m [] ps s rest w at q u h h' le =
    rw at (forwards_queue (record m { point = head }) ps s rest w refl q u h' (omega arith))
forwards_turn m (i ∷ is) ps s rest w at q u (one, h) h' le =
    let (c, sent, done, left) =
      forwards_turn (forwarded m i (initial is)) is ps s rest w refl q
        (keep-IsUndisturbed m.turn i w u) h h' (omega arith) in
    subst
      (λ n.
        IsDone m (frames m.turn.mic_sequence (i ∷ (is ++ ps))) rest
          (pump_times (pumps_for is ps) n))
      (sym (pump_initial m i is w at u (omega arith) one))
      (
        c,
        sent
            ∙ append_assoc m.sent ((header mic_pcm m.turn.mic_sequence ++ i) ∷ [])
                (frames (m.turn.mic_sequence + 1) (is ++ ps)),
        done,
        left,
      )

-- A turn with a socket, not cancelled and with nothing to skip is delivered whole: the task sends the
-- initial audio, then the queue's audio up to its first mark, each payload in one frame and in order, then
-- the end of the stream once, and ends; the endpoint is then set, and what stands behind the mark is still
-- in the queue. The payloads are frames of the microphone's size, and their count fits the sequence.
pub pump-delivers :
    (t : Turn) (ps : List (List ℕ)) (s : Option String) (rest : List Item) (w : ℕ)
    → IsUndisturbed t w
    → t.mic_sequence ≡ 0
    → All IsMicFrame t.initial_audio
    → All IsMicFrame ps
    → length t.initial_audio + length ps ≤ 4294967295
    → let m =
        pump_times (pumps_for t.initial_audio ps) (new_pump t (map pcm ps ++ (mark s ∷ rest))) in
      (m.point ≡ closed)
      × (m.sent ≡ frames 0 (t.initial_audio ++ ps))
      × (m.turn.endpoint ≡ true)
      × (m.queue ≡ rest)
pump-delivers t ps s rest w u z h h' le =
    let (c, sent, done, left) =
      forwards_turn (new_pump t (map pcm ps ++ (mark s ∷ rest))) t.initial_audio ps s rest w refl
        refl u h h' (omega arith) in
    (c, sent ∙ ap (λ n. frames n (t.initial_audio ++ ps)) z, done, left)

-- A turn is told to be without speech by its queue only at the device's deadline, and only if nobody was
-- heard: not by a transcript, and not by the speech detection of Home Assistant.
pub no_speech-mark :
    (t : Turn) (s : Option String)
    → t.no_speech ≡ false
    → ((marked t s).no_speech ≡ true) ↔ ((s ≡ some vad_sentinel_timeout) × (heard t ≡ false))
no_speech-mark t none h = ground arith
no_speech-mark t (some x) h = ground (arith, eq_iff x vad_sentinel_timeout)
