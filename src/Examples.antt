-- ===== src/Examples.antt =====
-- Tests, and the theorems of the properties at concrete inputs.
mod Limiter
mod Matching
mod Quests
mod Xp
mod Search
mod Pick
mod Installer
mod Pool
mod Ingest
mod Middleware
mod Queue
mod Discovery
mod Feed
