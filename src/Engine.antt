-- ===== src/Engine.antt =====
-- internal/engine: the leader election, and the cycle of the polling loop.
pub mod Lease
pub mod Cycle
