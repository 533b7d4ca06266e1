-- ===== src/Models.antt =====
-- pkg/models.
pub mod Entry
