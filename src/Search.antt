-- ===== src/Search.antt =====
-- backend/internal/issue/search_categories.go: the merge of a search's categories into one list.
pub mod Interleave
