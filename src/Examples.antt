-- ===== src/Examples.antt =====
-- The theorems at concrete inputs, over the natural numbers in place of float64.
mod Grouped
mod Sinking
mod Filtered
mod Led
mod Histograms
mod Sourced
pub mod Discovered
mod Rated
mod Encoded
mod Scraped
mod Decoded
mod Routed
pub mod Controlled
