-- ===== src/Ndt.antt =====
-- ndt/: the client of the Network Diagnostic Tool.
pub mod Errors
pub mod Context
pub mod Messages
pub mod Protocol
pub mod Subtests
pub mod Run
pub mod Cutting
pub mod Framing
pub mod Queue
pub mod Bounds
