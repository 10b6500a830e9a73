-- ===== src/Srs.antt =====
-- The binary rule-set files of common/srs.
pub mod Wire
pub mod Options
pub mod Writing
pub mod Reading
pub mod RoundTrip
pub mod Termination
pub mod Tests
