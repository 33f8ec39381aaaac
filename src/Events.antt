-- ===== src/Events.antt =====
-- plugins/events: which events of the cluster are sent.
pub mod Selection
pub mod Router
