-- ===== src/Reboot.antt =====
-- internal/features/reboot: the reboot queue, the drain, and the per-node state machine.
pub mod Pods
pub mod Pdb
pub mod Drain
pub mod Queue
pub mod World
pub mod Manage
pub mod Admission
pub mod Cycle
pub mod Local
