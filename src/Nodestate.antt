-- ===== src/Nodestate.antt =====
-- internal/nodestate: the reboot and update annotations of a node, and how they are written.
pub mod State
pub mod Values
pub mod Patch
pub mod Transition
pub mod Update
pub mod RoundTrip
pub mod Effects
pub mod Guards
