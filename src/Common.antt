-- ===== src/Common.antt =====
-- common/: the utilities that the rest of the library stands on.
pub mod Text
pub mod Error
pub mod Worker
pub mod Parallel
pub mod Scalar
