-- ===== src/Sync.antt =====
-- backend/internal/sync: what an issue's labels say of its difficulty.
pub mod Classify
pub mod Metadata
