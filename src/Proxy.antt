-- ===== src/Proxy.antt =====
-- server/handlers/proxy: the proxy of movies, which serves ranges of bytes.
pub mod Slice
pub mod Header
pub mod Memory
pub mod Request
pub mod Stored
