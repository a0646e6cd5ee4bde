-- ===== src/TurnEngine/Registry/Coherent.antt =====
-- Every registered turn stays coherent, whatever is called on the registry.
use echo_voice_satellite.Prelude.{
  ℕ, String, ◌≡◌, refl, Bool, true, false, Option, none, some, List, [], ◌∷◌, arith, inl, inr,
  Option-cases, subst, ◌&&◌, Bool-cases, is_given, not, ◌||◌, if◌then◌else◌, ◌==◌, nat_eq,
  string_eq,
}
use echo_voice_satellite.Prelude.Dict.{Dict, get, put, Values, put-Values, get-Values}
use echo_voice_satellite.TurnEngine.Turn.{Turn, Device, end_turn}
use echo_voice_satellite.TurnEngine.Action.{Action}
use echo_voice_satellite.TurnEngine.Action.Laws.{IsCoherent, act-IsCoherent, end_turn-IsCoherent}
use echo_voice_satellite.TurnEngine.Registry.{
  Engine, Call, calls, opens, closes, receives, cancels_turns, aborts, confirms, stops,
  marks_barged, barges, step, run, turn_action, open_socket, close_socket, drop_socket, end_speech,
  receive_message, receive, receive_frame, cancel_voice_turn, cancel_turns, abort_voice_turns,
  confirm_device_started, stop_voice_turn, with_detection, abort_ha_run, mark_barged, admit_barge,
  first_live, owner, is_some_of, is_request,
}

abbrev pub AllCoherent : Dict ℕ Turn → Type 0
AllCoherent m = Values IsCoherent m

-- A step that writes back one turn made from the one that was read.
module _ (m : Dict ℕ Turn) (h : AllCoherent m) (k : ℕ) (t : Turn) (read : get k m ≡ some t) where
  write : (t' : Turn) → (IsCoherent t → IsCoherent t') → AllCoherent (put k t' m)
  write t' f = put-Values IsCoherent k t' m h (f (get-Values IsCoherent k t m h read))

if-IsCoherent :
    (b : Bool) (t u : Turn) → IsCoherent t → IsCoherent u → IsCoherent (if b then t else u)
if-IsCoherent true t u ht hu = ht
if-IsCoherent false t u ht hu = hu

cancel_turns-AllCoherent :
    (ds : ℕ → Device) (d r : String) (m : Dict ℕ Turn)
    → AllCoherent m
    → AllCoherent (cancel_turns ds d r m)
unfolding cancel_turns
cancel_turns-AllCoherent ds d r [] h = tt
cancel_turns-AllCoherent ds d r ((k, t) ∷ m) (ht, h) = (
  if-IsCoherent (owner ds t == d) _ _ (end_turn-IsCoherent t r true ht) ht,
  cancel_turns-AllCoherent ds d r m h,
)

mark_barged-AllCoherent :
    (ds : ℕ → Device) (d : String) (m : Dict ℕ Turn)
    → AllCoherent m
    → AllCoherent (mark_barged ds d m)
unfolding mark_barged
mark_barged-AllCoherent ds d [] h = tt
mark_barged-AllCoherent ds d ((k, t) ∷ m) (ht, h) = (
  if-IsCoherent (owner ds t == d) _ _ (end_turn-IsCoherent t "barged" false ht) ht,
  mark_barged-AllCoherent ds d m h,
)

receive-IsCoherent :
    (t : Turn) (raw : List ℕ) (now : ℕ) → IsCoherent t → IsCoherent (receive t raw now).0
unfolding receive receive_frame
receive-IsCoherent t raw now v = ground arith

if-turns :
    {C : Type 0} (b : Bool) (x y : Engine × C)
    → AllCoherent x.0.turns
    → AllCoherent y.0.turns
    → AllCoherent (if b then x else y).0.turns
if-turns true x y hx hy = hx
if-turns false x y hx hy = hy

if-AllCoherent :
    (b : Bool) (x y : Dict ℕ Turn)
    → AllCoherent x
    → AllCoherent y
    → AllCoherent (if b then x else y)
if-AllCoherent true x y hx hy = hx
if-AllCoherent false x y hx hy = hy

turn_action-AllCoherent :
    (e : Engine) (tid : ℕ) (a : Action) (now : ℕ)
    → AllCoherent e.turns
    → AllCoherent (turn_action e tid a now).0.turns
unfolding turn_action
turn_action-AllCoherent e tid a now h = elim (Option-cases (get tid e.turns)) [
  | inl q ↦ rw (q, turn_action) h
  | inr (t, q) ↦ rw (q, turn_action) (write e.turns h tid t q _ (act-IsCoherent _ a now))
]

open_socket-AllCoherent :
    (e : Engine) (tid ws : ℕ) → AllCoherent e.turns → AllCoherent (open_socket e tid ws).0.turns
unfolding open_socket
open_socket-AllCoherent e tid ws h = elim (Option-cases (get tid e.turns)) [
  | inl q ↦ rw (q, open_socket) h
  | inr (t, q) ↦
      rw (q, open_socket)
        (if-turns (is_given t.socket) _ _ h (write e.turns h tid t q _ (λ v. ground arith)))
]

receive_message-AllCoherent :
    (e : Engine) (tid : ℕ) (raw : List ℕ) (now : ℕ)
    → AllCoherent e.turns
    → AllCoherent (receive_message e tid raw now).turns
unfolding receive_message
receive_message-AllCoherent e tid raw now h = elim (Option-cases (get tid e.turns)) [
  | inl q ↦ rw (q, receive_message) h
  | inr (t, q) ↦ rw (q, receive_message) (write e.turns h tid t q _ (receive-IsCoherent t raw now))
]

drop-AllCoherent :
    (m : Dict ℕ Turn) (tid ws : ℕ) (o : Option Turn)
    → get tid m ≡ o
    → AllCoherent m
    → AllCoherent (drop_socket m tid ws o)
drop-AllCoherent m tid ws none q h = h
drop-AllCoherent m tid ws (some t) q h =
    if-AllCoherent (is_some_of t.socket ws) _ _ (write m h tid t q _ (λ v. ground arith)) h

end_speech-AllCoherent :
    (m : Dict ℕ Turn) (tid : ℕ) (o : Option Turn)
    → get tid m ≡ o
    → AllCoherent m
    → AllCoherent (end_speech m tid o)
end_speech-AllCoherent m tid none q h = h
end_speech-AllCoherent m tid (some t) q h = write m h tid t q _ (λ v. ground arith)

close_socket-AllCoherent :
    (e : Engine) (tid ws : ℕ) → AllCoherent e.turns → AllCoherent (close_socket e tid ws).turns
unfolding close_socket
close_socket-AllCoherent e tid ws h =
    end_speech-AllCoherent _ tid _ refl (drop-AllCoherent e.turns tid ws (get tid e.turns) refl h)

confirm-AllCoherent :
    (e : Engine) (device : ℕ) (q : String) (tid : ℕ)
    → AllCoherent e.turns
    → AllCoherent (confirm_device_started e device q tid).0.turns
unfolding confirm_device_started
confirm-AllCoherent e device q tid h = elim (Option-cases (get tid e.turns)) [
  | inl r ↦ rw (r, confirm_device_started) h
  | inr (t, r) ↦
      rw (r, confirm_device_started)
        (if-turns (not (t.device == device) || not (is_request t.request_id q) || t.cancelled) _ _ h
          (write e.turns h tid t r _ (λ v. ground arith)))
]

stopped-IsCoherent :
    (t : Turn) (d : Option String)
    → IsCoherent t
    → IsCoherent (end_turn (with_detection t d) "stopped" true)
stopped-IsCoherent t none v = end_turn-IsCoherent t "stopped" true v
stopped-IsCoherent t (some x) v = end_turn-IsCoherent _ "stopped" true (ground arith)

stop-AllCoherent :
    (e : Engine) (d : String) (tid : ℕ) (x : Option String)
    → AllCoherent e.turns
    → AllCoherent (stop_voice_turn e d tid x).0.turns
unfolding stop_voice_turn
stop-AllCoherent e d tid x h = elim (Option-cases (get tid e.turns)) [
  | inl r ↦ rw (r, stop_voice_turn) h
  | inr (t, r) ↦
      rw (r, stop_voice_turn)
        (if-turns (not (owner e.devices t == d)) _ _ h
          (write e.turns h tid t r _ (stopped-IsCoherent t x)))
]

first_live-IsCoherent :
    (device : ℕ) (m : Dict ℕ Turn) (k : ℕ) (t : Turn)
    → AllCoherent m
    → first_live device m ≡ some (k, t)
    → IsCoherent t
unfolding first_live
first_live-IsCoherent device [] k t h e = cc
first_live-IsCoherent device ((j, u) ∷ m) k t (hu, h) e =
    elim (Bool-cases (u.device == device && not u.cancelled)) [
      | inl b ↦ let q : u ≡ t = ground arith in subst IsCoherent q hu
      | inr b ↦ first_live-IsCoherent device m k t h (rw b at e)
    ]

barge-AllCoherent :
    (e : Engine) (device : ℕ) (q : String) (score threshold seq : ℕ) (valid : Bool)
    → AllCoherent e.turns
    → AllCoherent (admit_barge e device q score threshold seq valid).0.turns
unfolding admit_barge
barge-AllCoherent e device q score threshold seq valid h =
    elim (Option-cases (first_live device e.turns)) [
      | inl r ↦ rw (r, admit_barge) h
      | inr ((k, t), r) ↦
          rw (r, admit_barge)
            (if-turns (not valid) _ _ h (
              put-Values IsCoherent k _ e.turns h (
                end_turn-IsCoherent t "barged" true
                  (first_live-IsCoherent device e.turns k t h r))))
    ]

step-AllCoherent : (e : Engine) (c : Call) → AllCoherent e.turns → AllCoherent (step e c).turns
unfolding step cancel_voice_turn abort_voice_turns abort_ha_run
step-AllCoherent e (calls tid a now) h = turn_action-AllCoherent e tid a now h
step-AllCoherent e (opens tid ws) h = open_socket-AllCoherent e tid ws h
step-AllCoherent e (closes tid ws) h = close_socket-AllCoherent e tid ws h
step-AllCoherent e (receives tid raw now) h = receive_message-AllCoherent e tid raw now h
step-AllCoherent e (cancels_turns d r) h = cancel_turns-AllCoherent e.devices d r e.turns h
step-AllCoherent e (aborts d r) h = cancel_turns-AllCoherent e.devices d r e.turns h
step-AllCoherent e (confirms d q tid) h = confirm-AllCoherent e d q tid h
step-AllCoherent e (stops d tid x) h = stop-AllCoherent e d tid x h
step-AllCoherent e (marks_barged d) h = mark_barged-AllCoherent e.devices d e.turns h
step-AllCoherent e (barges d q a b c v) h = barge-AllCoherent e d q a b c v h

-- Whatever is called on the registry, in whatever order, every registered turn stays coherent: a turn
-- that is cancelled has a cause and does not wait for its endpoint, and a rejected turn is cancelled and
-- was not accepted.
pub run-AllCoherent :
    (e : Engine) (cs : List Call) → AllCoherent e.turns → AllCoherent (run e cs).turns
unfolding run
run-AllCoherent e [] h = h
run-AllCoherent e (c ∷ cs) h = run-AllCoherent (step e c) cs (step-AllCoherent e c h)
