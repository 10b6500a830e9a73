-- ===== src/Srs/RoundTrip.antt =====
-- Reading what was written: the items of a rule, a rule, the rules of a file.
pub mod Segments
pub mod Items
pub mod Loaded
pub mod Default
pub mod Rules
pub mod Files
