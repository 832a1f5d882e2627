-- ===== src/Ingest.antt =====
-- backend/internal/ingest: the crawler's shared GitHub budget, which repositories it takes, and the
-- text that it stores.
pub mod Budget
pub mod Eligibility
pub mod Ladder
pub mod Queue
pub mod Sanitize
pub mod Discovery
