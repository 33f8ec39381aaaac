-- ===== src/Metrics.antt =====
-- internal/metrics: the data that the sources produce and the processors change.
pub mod Labels
pub mod Exported
pub mod Types
pub mod Catalog
pub mod Keys
pub mod Sets
