-- ===== src/Example.antt =====
-- example: a client of the engine with the application around it, and the application around the echo
-- server.
pub mod Callbacks
pub mod Client
pub mod StartHook
pub mod Provider
pub mod Configuration
pub mod Tracer
pub mod Hooks
pub mod Timeout
pub mod Application
pub mod Life
pub mod Server
