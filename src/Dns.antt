-- ===== src/Dns.antt =====
-- The DNS side of the router.
pub mod Servers
pub mod Match
pub mod Lookup
pub mod Exchange
mod Tests
