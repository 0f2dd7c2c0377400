-- ===== src/Kube.antt =====
-- internal/kube: the API objects that the controller reads, label selectors, and the errors of a
-- call.
pub mod Types
pub mod Selector
pub mod Server
