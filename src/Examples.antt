-- ===== src/Examples.antt =====
-- Concrete runs of the program, at which the theorems with hypotheses are applied.
mod Fixtures
mod Lifecycle
mod Sessions
mod Restarts
mod Overlap
mod Loops
mod Clients
mod Composed
mod Drained
mod Hazards
mod Spans
mod Options
mod Adapters
mod Application
