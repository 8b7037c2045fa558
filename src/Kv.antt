-- ===== src/Kv.antt =====
-- The key-value store: cassette/kv/.
pub mod Version
pub mod Config
pub mod Quorum
pub mod Messages
pub mod Round
pub mod Replica
pub mod Client
mod Tests
