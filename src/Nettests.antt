-- ===== src/Nettests.antt =====
-- nettests/: what runs a test over its inputs.
pub mod Measurements
pub mod Inputs
pub mod Geoip
pub mod Bouncer
