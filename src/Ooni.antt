-- ===== src/Ooni.antt =====
-- Measurements of ooni/.
pub mod Collector
pub mod Errors
pub mod WebConnectivity
