-- ===== src/Engine.antt =====
-- wscengine/websocket_engine.go: the state of the engine and its six functions, each a function
-- from the state and from what its environment answers to the new state and its result.
pub mod State
pub mod Calls
pub mod Shutdown
pub mod Stop
pub mod Start
pub mod Restart
pub mod Overlap
pub mod Starters
pub mod Reader
pub mod Kept
pub mod Invariant
pub mod System
pub mod Hazards
pub mod Redial
pub mod Composed
pub mod Cycles
pub mod Factory
pub mod Spans
