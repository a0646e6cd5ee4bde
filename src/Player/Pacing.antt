-- ===== src/Player/Pacing.antt =====
-- The pacing of a feed (`MediaSession._feed` of controller/em_player.py): how far ahead of the time that has
-- passed it may send. Time is counted in bytes of audio: 96,000 are one second.
use echo_voice_satellite.Prelude.{ℕ, ◌+◌, ◌-◌, ◌≤◌, List, [], ◌∷◌, arith, ltb, All, if◌then◌else◌}

abbrev pub bytes_per_sec : ℕ
bytes_per_sec = 96000

abbrev pub speaker_bytes : ℕ
speaker_bytes = 4096

-- The time since the start of the segment, and what was sent in it.
pub record Pace : Type 0 where
  pub now : ℕ
  pub sent : ℕ

-- A chunk of the decoder: how long the read of it took, the lead that the session has then, and how much
-- longer than it was asked for a sleep takes.
pub record Chunk : Type 0 where
  pub read : ℕ
  pub lead : ℕ
  pub oversleep : ℕ

-- `ahead > lead` asks for a sleep of the difference.
pub send_chunk : Pace → Chunk → Pace
send_chunk p c =
    let read = p.now + c.read in
    if ltb (read + c.lead) p.sent
    then record { now = p.sent - c.lead + c.oversleep; sent = p.sent + speaker_bytes }
    else record { now = read; sent = p.sent + speaker_bytes }

-- The moments at which frames are sent, each with the lead of its chunk.
pub send_chunks : Pace → List Chunk → List (Pace × ℕ)
send_chunks p [] = []
send_chunks p (c ∷ cs) = let p' = send_chunk p c in (p', c.lead) ∷ send_chunks p' cs

abbrev pub Leads : Pace × ℕ → Type 0
Leads r = r.0.sent ≤ r.0.now + r.1 + speaker_bytes

chunk-Leads : (p : Pace) (c : Chunk) → Leads (send_chunk p c, c.lead)
unfolding send_chunk
chunk-Leads p c = ground arith

-- However long the decoder and the sleeps take, and however the lead changes from one frame to the next, a
-- feed is with each frame that it sends ahead of time by at most the lead that holds then and that frame:
-- a turn that lowers the lead stops the feed until it is back within it.
pub send_chunks-Leads : (p : Pace) (cs : List Chunk) → All Leads (send_chunks p cs)
unfolding send_chunks
send_chunks-Leads p [] = tt
send_chunks-Leads p (c ∷ cs) = (chunk-Leads p c, send_chunks-Leads (send_chunk p c) cs)
