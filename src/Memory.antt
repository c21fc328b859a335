-- ===== src/Memory.antt =====
-- The providers that keep everything in the process: src/memory/MemoryProviders.ts.
pub mod Persistence
pub mod Cache
pub mod Lru
pub mod Leases
pub mod Mutex
