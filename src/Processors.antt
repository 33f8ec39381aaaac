-- ===== src/Processors.antt =====
-- plugins/processors: the stages through which a batch passes before it is exported.
pub mod Enriching
pub mod Rates
pub mod Aggregate
pub mod SumCount
pub mod PodAggregator
pub mod Distributions
