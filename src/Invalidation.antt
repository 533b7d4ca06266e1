-- ===== src/Invalidation.antt =====
-- The invalidation service.
pub mod Patterns
pub mod Service
