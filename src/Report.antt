-- ===== src/Report.antt =====
-- report/: where measurement results go.
pub mod Errors
pub mod BaseReporter
pub mod FileReporter
pub mod OoniReporter
