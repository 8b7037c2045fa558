-- ===== src/Checker.antt =====
-- The oracle: cassette/checker/.
pub mod History
pub mod Model
pub mod Linearizable
pub mod Search
pub mod Linear
mod Tests
