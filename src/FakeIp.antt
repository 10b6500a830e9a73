-- ===== src/FakeIp.antt =====
-- The fake-IP address pool (transport/fakeip): addresses, the storage behind its laws, the
-- in-memory storage, the allocator and the DNS transport on top of it.
pub mod Addr
pub mod Storage
pub mod Memory
pub mod Store
pub mod Transport
mod Tests
pub mod CacheFile
