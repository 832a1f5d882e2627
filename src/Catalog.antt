-- ===== src/Catalog.antt =====
-- backend/internal/issue: picking issues from the shuffled feed.
pub mod Pick
pub mod Shuffle
pub mod Cursor
pub mod ForYou
