-- ===== src/Net.antt =====
-- net/: transports, buffers and address helpers.
pub mod Errors
pub mod Buffer
pub mod Address
pub mod Emitter
pub mod Socks5
pub mod Transport
pub mod Connect
