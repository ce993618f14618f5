-- ===== src/Neubot.antt =====
-- Measurements of neubot/.
pub mod Dash
