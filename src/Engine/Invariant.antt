-- ===== src/Engine/Invariant.antt =====
-- What holds of the engine of wscengine/websocket_engine.go between any two of its steps, and that
-- its functions keep it.
pub mod Defs
pub mod Steps
pub mod Starts
pub mod Stops
pub mod Readers
