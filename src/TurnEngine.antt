-- ===== src/TurnEngine.antt =====
-- controller/em_turn_engine.py: the voice turns of the controller. The children model the data, the
-- operations on one turn, the registry of turns and the microphone side, and prove their laws.
pub mod Turn
pub mod Action
pub mod Registry
pub mod Mic
pub mod Run
pub mod Upsampler
