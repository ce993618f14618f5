-- ===== src/Tests.antt =====
-- The theorems at concrete inputs.
pub mod Chunked
pub mod TextTests
pub mod WorkerTests
pub mod ParallelTests
pub mod BufferTests
pub mod SocksTests
pub mod ReportTests
pub mod HttpTests
pub mod UrlTests
pub mod WebTests
pub mod EmitterTests
pub mod NdtTests
pub mod NettestTests
pub mod CollectorTests
pub mod ConnectTests
pub mod DashTests
