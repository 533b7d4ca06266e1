-- ===== src/CacheManager.antt =====
-- cache-manager/: the L1 cache, the service over it and its event handlers.
pub mod L1Cache
pub mod Service
pub mod Coalescer
