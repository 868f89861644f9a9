-- ===== src/Event.antt =====
-- The events of a runtime: the two base types and the objects that embed them.
pub mod State
pub mod Timer
pub mod Object
