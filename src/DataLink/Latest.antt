-- ===== src/DataLink/Latest.antt =====
-- What the microphone's queue of a device holds (`handle_data` of controller/em_controller.py).
use echo_voice_satellite.Prelude.{
  ℕ, suc, ◌-◌, ◌≤◌, ◌≡◌, refl, sym, ap, ◌∙◌, true, false, Option, none, some, List, [], ◌∷◌, ◌++◌,
  length, length-append, drop, append_nil, ltb, if◌then◌else◌, nat_eq, Bool-cases, Option-cases,
  inl, inr, arith,
}
use mathlib.Core.List.{append_assoc}
use echo_voice_satellite.TurnEngine.Mic.{Item}
use echo_voice_satellite.Capture.Metadata.{Library}
use echo_voice_satellite.DataLink.{
  Link, max_queue, put_latest, is_capture, mic_item, queued, on_message,
}

pub on_messages : Library → Link → List (Option (List ℕ)) → Link
on_messages lib l [] = l
on_messages lib l (m ∷ ms) = on_messages lib (on_message lib l m).0 ms

-- The item of a message, if it is one of the microphone.
abbrev pub item_of : Option (List ℕ) → Option Item
item_of none = none
item_of (some []) = none
item_of (some (t ∷ rest)) = if is_capture t then none else mic_item (t ∷ rest)

abbrev pub and_then : Option Item → List Item → List Item
and_then none is = is
and_then (some i) is = i ∷ is

abbrev pub items : List (Option (List ℕ)) → List Item
items [] = []
items (m ∷ ms) = and_then (item_of m) (items ms)

-- The last 256 items of a list.
abbrev pub recent : List Item → List Item
recent xs = drop (length xs - max_queue) xs

on_message_eq :
    (lib : Library) (l : Link) (m : Option (List ℕ))
    → let l' = (on_message lib l m).0 in
      (l'.voice_queue ≡ (queued l (item_of m)).voice_queue) × (l'.oww_paused ≡ l.oww_paused)
unfolding on_message
on_message_eq lib l none = (refl, refl)
on_message_eq lib l (some []) = (refl, refl)
on_message_eq lib l (some (t ∷ rest)) = elim (Option-cases (mic_item (t ∷ rest))) [
  | inl q ↦ ground (arith, q)
  | inr (i, q) ↦ ground (arith, q)
]

put-recent :
    (q : List Item) (i : Item) (ys : List Item)
    → length q ≤ max_queue
    → recent (put_latest q i ++ ys) ≡ recent (q ++ i ∷ ys)
put-recent [] i ys h = refl
put-recent (x ∷ q) i ys h = elim (Bool-cases (ltb (length (x ∷ q)) max_queue)) [
  | inl room ↦ rw room (ap recent (append_assoc (x ∷ q) (i ∷ []) ys))
  | inr full ↦
      let rest = q ++ i ∷ ys in
      let long = length-append q (i ∷ ys) in
      let n : length (x ∷ rest) - max_queue ≡ suc (length rest - max_queue) = ground arith in
      rw full (ap recent (append_assoc q (i ∷ []) ys) ∙ ap (λ k. drop k (x ∷ rest)) (sym n))
]

length-put : (q : List Item) (i : Item) → length q ≤ max_queue → length (put_latest q i) ≤ max_queue
length-put [] i h = omega arith
length-put (x ∷ q) i h = ground (arith, length-append q (i ∷ []), length-append (x ∷ q) (i ∷ []))

step-recent :
    (l : Link) (o : Option Item) (ys : List Item)
    → l.oww_paused ≡ true
    → length l.voice_queue ≤ max_queue
    → (recent ((queued l o).voice_queue ++ ys) ≡ recent (l.voice_queue ++ and_then o ys))
      × (length (queued l o).voice_queue ≤ max_queue)
step-recent l none ys p h = (refl, h)
step-recent l (some i) ys p h = rw p (put-recent l.voice_queue i ys h, length-put l.voice_queue i h)

-- While a turn listens, whatever messages arrive (captures, texts and malformed ones among them), the queue
-- holds the last 256 of what it held and of the audio and the marks that came, in order: the oldest give way,
-- so the queue is contiguous with the present and a mark that has come last is there.
pub on_messages-recent :
    (lib : Library) (l : Link) (ms : List (Option (List ℕ)))
    → l.oww_paused ≡ true
    → length l.voice_queue ≤ max_queue
    → (on_messages lib l ms).voice_queue ≡ recent (l.voice_queue ++ items ms)
unfolding on_messages
on_messages-recent lib l [] p h =
    let n : length l.voice_queue - max_queue ≡ 0 = omega arith in
    rw (append_nil l.voice_queue, n) refl
on_messages-recent lib l (m ∷ ms) p h =
    let (q, same) = on_message_eq lib l m in
    let (keeps, small) = step-recent l (item_of m) (items ms) p h in
    on_messages-recent lib (on_message lib l m).0 ms (same ∙ p) (rw q small)
    ∙ ap (λ x. recent (x ++ items ms)) q
    ∙ keeps

-- While no turn listens, the queue is left as it is, whatever messages arrive.
pub on_messages-idle :
    (lib : Library) (l : Link) (ms : List (Option (List ℕ)))
    → l.oww_paused ≡ false
    → (on_messages lib l ms).voice_queue ≡ l.voice_queue
unfolding on_messages
on_messages-idle lib l [] p = refl
on_messages-idle lib l (m ∷ ms) p =
    let (q, same) = on_message_eq lib l m in
    on_messages-idle lib (on_message lib l m).0 ms (same ∙ p)
    ∙ q
    ∙ (elim (Option-cases (item_of m)) [ inl z ↦ rw z refl | inr (i, z) ↦ rw (z, p) refl ])
