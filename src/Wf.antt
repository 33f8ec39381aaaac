-- ===== src/Wf.antt =====
-- internal/wf: points, distributions, and the filter that a metric passes.
pub mod Point
pub mod Distribution
pub mod Metric
pub mod Filtering
