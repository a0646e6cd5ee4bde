-- ===== src/Satellite/Stale.antt =====
-- That the entity acts for the turn that it owns, and for no other
-- (hacs/custom_components/echo_voice_satellite/assist_satellite.py).
use echo_voice_satellite.Prelude.{
  ◌<◌, String, ◌≡◌, refl, sym, subst, Bool, false, none, some, List, [], ◌∷◌, nat_eq, string_eq,
  arith,
}
use echo_voice_satellite.Satellite.{
  Ownership, Satellite, new_satellite, owns_turn, handle_wake_offer, after_accept, gateway_end,
  PipelineEvent, vad_start, stt_end, intent_ended, tts_ended, error, Point, transcribed, endpointed,
  answered, respond, pipeline_event, resume, on_partial, Move, offers, accepts, ends, reports,
  resumes, hears, move, moves,
}

-- The token was given out, and the turn is not the one that is owned.
abbrev pub Lost : Ownership → Satellite → Type 0
Lost o s = (o.token < s.next_token) × (owns_turn s o ≡ false)

-- The token of the turn was given out, if the turn is the one that is owned.
abbrev pub Issued : Ownership → Satellite → Type 0
Issued o s = s.active ≡ some o → o.token < s.next_token

-- `s'` owns what `s` owns, and has given out the same tokens.
abbrev Keeps : Satellite → Satellite → Type 0
Keeps s s' = (s'.active ≡ s.active) × (s'.next_token ≡ s.next_token)

respond-Keeps : (o : Ownership) (e : PipelineEvent) (s : Satellite) → Keeps s (respond o e s)
respond-Keeps o vad_start s = ground arith
respond-Keeps o (stt_end text) s = ground arith
respond-Keeps o (intent_ended text continues) s = ground arith
respond-Keeps o (tts_ended given) s = ground arith
respond-Keeps o error s = ground arith

resume-Keeps : (o : Ownership) (p : Point) (s : Satellite) → Keeps s (resume o p s)
unfolding resume owns_turn
resume-Keeps o transcribed s = ground arith
resume-Keeps o endpointed s = (refl, refl)
resume-Keeps o (answered continues) s = ground arith

move-Lost : (m : Move) (o : Ownership) (s : Satellite) → Lost o s → Lost o (move m s)
unfolding move handle_wake_offer after_accept gateway_end pipeline_event on_partial owns_turn
move-Lost (offers turn none) o s h = ground arith
move-Lost (offers turn (some c)) o s h = ground arith
move-Lost (accepts turn works) o s h = ground arith
move-Lost (ends turn cancels) o s h = ground arith
move-Lost (reports p e) o s h = ground (arith, respond-Keeps p e s)
move-Lost (resumes p point) o s h = ground (arith, resume-Keeps p point s)
move-Lost (hears p text) o s h = ground arith

moves-Lost : (ms : List Move) (o : Ownership) (s : Satellite) → Lost o s → Lost o (moves ms s)
unfolding moves
moves-Lost [] o s h = h
moves-Lost (m ∷ ms) o s h = moves-Lost ms o (move m s) (move-Lost m o s h)

move-Issued : (m : Move) (o : Ownership) (s : Satellite) → Issued o s → Issued o (move m s)
unfolding move handle_wake_offer after_accept gateway_end pipeline_event on_partial owns_turn
move-Issued (offers turn none) o s h e = ground arith
move-Issued (offers turn (some c)) o s h e = ground arith
move-Issued (accepts turn works) o s h e = ground arith
move-Issued (ends turn cancels) o s h e = ground arith
move-Issued (reports p r) o s h e = ground (arith, respond-Keeps p r s)
move-Issued (resumes p point) o s h e = ground (arith, resume-Keeps p point s)
move-Issued (hears p text) o s h e = ground arith

moves-Issued : (ms : List Move) (o : Ownership) (s : Satellite) → Issued o s → Issued o (moves ms s)
unfolding moves
moves-Issued [] o s h = h
moves-Issued (m ∷ ms) o s h = moves-Issued ms o (move m s) (move-Issued m o s h)

new_satellite-Issued : (o : Ownership) → Issued o new_satellite
new_satellite-Issued o e = ground arith

gateway_end-Lost :
    (o : Ownership) (cancels : Bool) (s : Satellite)
    → s.active ≡ some o
    → o.token < s.next_token
    → Lost o (gateway_end o.turn_id cancels s)
unfolding gateway_end owns_turn
gateway_end-Lost o cancels s e h = ground arith

Lost-silent :
    (o : Ownership) (s : Satellite) (e : PipelineEvent) (p : Point) (text : String)
    → Lost o s
    → (pipeline_event o e s ≡ s) × (on_partial o text s ≡ s) × ((resume o p s).sent ≡ s.sent)
unfolding pipeline_event on_partial resume owns_turn
Lost-silent o s e transcribed text h = ground arith
Lost-silent o s e endpointed text h = ground arith
Lost-silent o s e (answered c) text h = ground arith

-- Let a satellite that has gone through any moves own a turn, which the controller then ends. After any further
-- moves, offers of new turns included, an event of the pipeline and a partial text of that turn change nothing, and a
-- handler of it that was waiting for the controller sends it nothing more.
pub ended-silent :
    (before after : List Move) (o : Ownership) (cancels : Bool) (e : PipelineEvent) (p : Point)
    (text : String) (s : Satellite)
    → (moves before new_satellite).active ≡ some o
    → s ≡ moves after (gateway_end o.turn_id cancels (moves before new_satellite))
    → (pipeline_event o e s ≡ s) × (on_partial o text s ≡ s) × ((resume o p s).sent ≡ s.sent)
ended-silent before after o cancels e p text s owned reached =
    let now = moves before new_satellite in
    let issued = moves-Issued before o new_satellite (new_satellite-Issued o) owned in
    let lost =
      moves-Lost after o (gateway_end o.turn_id cancels now)
        (gateway_end-Lost o cancels now owned issued) in
    Lost-silent o s e p text (subst (Lost o) (sym reached) lost)
