-- ===== src/Sinks.antt =====
-- plugins/sinks: the sink that sends a batch to Wavefront.
pub mod Patterns
pub mod TagCleaning
pub mod Wavefront
