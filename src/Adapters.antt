-- ===== src/Adapters.antt =====
-- wscengine/wsadapters: the constants, the interface of the adapters, its two implementations and
-- its instrumentation decorator.
pub mod Constants
pub mod Codes
pub mod Interface
pub mod Client
pub mod Gorilla
pub mod Nhooyr
pub mod Names
pub mod Traced
