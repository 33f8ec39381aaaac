-- ===== src/Sources.antt =====
-- plugins/sources: which providers of metrics are running, and when each is asked.
pub mod Timer
pub mod Providers
pub mod Scraping
pub mod Summary
pub mod Prometheus
pub mod Kubelet
pub mod State
pub mod ControlPlane
