-- ===== src/Update.antt =====
-- internal/features/update: the feature that keeps each node's release up to date.
pub mod World
pub mod Flavor
pub mod Check
pub mod Reconcile
pub mod Stage
pub mod Enqueue
pub mod Cycle
pub mod Steps
pub mod Verify
