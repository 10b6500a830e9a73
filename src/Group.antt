-- ===== src/Group.antt =====
-- Groups of outbounds, which forward a connection to one of their members.
pub mod Members
pub mod Interrupt
pub mod UrlTest
pub mod Selector
mod Tests
