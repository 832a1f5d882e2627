-- ===== src/Recommendation.antt =====
-- backend/internal/recommendation: the ranking of candidate issues for a profile.
pub mod Score
