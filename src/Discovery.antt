-- ===== src/Discovery.antt =====
-- plugins/discovery and internal/discovery: finding what to collect metrics from.
pub mod Endpoints
pub mod Resources
pub mod Selection
pub mod Creation
pub mod Discoverer
pub mod Listeners
pub mod Access
pub mod Prometheus
pub mod Configs
pub mod Runtime
