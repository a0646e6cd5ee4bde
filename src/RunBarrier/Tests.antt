-- ===== src/RunBarrier/Tests.antt =====
-- The law of `RunBarrier` at concrete events.
