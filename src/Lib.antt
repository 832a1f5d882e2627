-- ===== src/Lib.antt =====
-- A verification library of SkillIssues' Go code: the backend (backend/internal), and the
-- installer's versions.
--
-- SkillIssues matches contributors with open GitHub issues. An ingest daemon crawls repositories
-- under one GitHub rate-limit budget, with a worker pool whose concurrency can be changed while it
-- runs; an API serves the catalog behind a rate limiter, searches it, recommends issues to a
-- profile, and keeps a ledger of experience points (XP) from which levels and quests are read.
--
-- The modules and the code that they follow:
-- - Prelude: lists, tests, integers, stable sorting (Go's sort.SliceStable), text and time.
-- - Worker.Limiter (backend/internal/worker/limiter.go): `Limiter` is the struct; `acquire`,
--   `release`, `set_limit` and `abandon` are the locked regions of its methods, and `admit_locked`
--   is the loop that they end in. Worker.Limiter.System has the interleavings of its callers.
-- - Worker.Pool (backend/internal/worker/pool.go): `Pool` is the struct, its channel and its
--   goroutines; Worker.Pool.Steps is the step relation of callers, dispatcher and jobs.
-- - Xp (backend/internal/xp/xp.go): the types of the ledger. Xp.Level is `LevelOf`. Xp.Plan is
--   `Plan`, with Xp.Plan.Merges and Xp.Plan.Opened for its loops over merged pull requests and
--   opened issues, and Xp.Plan.Ledger for the maps that it fills from what was paid before.
-- - Xp.Quests (backend/internal/xp/quests.go): `Quests` and `QuestAwards`.
-- - Xp.Summary (backend/internal/xp/summary.go): `Summarise`, its badges, streak and languages.
-- - Search.Interleave (backend/internal/issue/search_categories.go): `interleave`.
-- - Middleware.ClientIp and Middleware.RateLimit (backend/internal/middleware/ratelimit.go and
--   `CheckRateLimit` of backend/internal/cache/redis.go): whom a request is counted against, and
--   the fixed-window counter.
-- - Ingest.Budget (backend/internal/ingest/budget.go): the rows of github_budget, the statements on
--   them and `CanProceed`.
-- - Ingest.Eligibility and Ingest.Sanitize (backend/internal/ingest/eligibility.go and sanitize.go):
--   `Eligible` and the removal of NUL bytes.
--   Ingest.Eligibility.Recompute is `RecomputeEligibility` of queue.go, the same rule in SQL.
-- - Ingest.Ladder (backend/internal/ingest/worker.go): `fetchWithBatchLadder`, the retries with
--   smaller pages.
-- - Ingest.Queue (backend/internal/ingest/queue.go, and the priority trigger of cmd/ingestd/main.go):
--   the tables as lists of rows, one function for each statement or transaction: `claim_jobs`,
--   `complete_or_requeue`, `release_job`, `fail_job`, `mark_unavailable`, `reclaim_expired`,
--   `enqueue_initial`, `enqueue_freshness` and `prioritize`. Ingest.Queue.Steps is their step
--   relation, Ingest.Queue.Keeps and Ingest.Queue.Interleavings are what any property needs to be
--   kept by it.
-- - Ingest.Discovery (backend/internal/ingest/discovery.go): the sweeps' tables, with `start_sweep`,
--   `complete_sweeps` and `due_sweep`; Ingest.Discovery.Windows has the statements on the windows,
--   `claim_windows`, `split_window`, `reclaim_windows`, `retry_failed_sweep` and the fenced writes.
--   Ingest.Discovery.Reach is their step relation.
-- - Recommendation.Score (backend/internal/recommendation/score.go): `ScoreCandidates`.
-- - Sync.Classify and Sync.Metadata (backend/internal/sync/classify.go): `ClassifyLabels` and
--   `ExtractMetadata`.
-- - Catalog.Pick (backend/internal/issue/pick.go): `pickFrom`.
-- - Catalog.Shuffle (backend/internal/issue/shuffle.go): `shuffleWalk` and `shuffleFromMatches` over
--   the eligible repositories in the order of their index, which stands for the query of
--   `shuffleBatch`.
-- - Catalog.ForYou (backend/internal/issue/foryou.go): `drawChunk`, `drawForYou` and `forYouPage`, the
--   pages of the For you feed.
-- - Catalog.Cursor (backend/internal/issue/browse.go, foryou.go and filters.go): `Encode`,
--   `DecodeCursor`, `decodeForYou` and `ParseSort`, on Prelude.Decimal (package strconv) and
--   Prelude.Base64 (package encoding/base64).
-- - Installer.Version (installer/version.go): `ParseVersion` and `Compare`.
-- - Examples: runs on concrete inputs.
--
-- How the code is written down. A Go int that the code never lets fall below 0 (ids, counts, the
-- xp.* settings, which settings/registry.go bounds below by 0) is a native natural number; a ledger
-- amount, which a reversal makes negative, and an argument that the code clamps are integers. No
-- sum comes near 2^63 with the registry's bounds, and wrap-around is written out only for the
-- backoff of `FailJob`, a product. A time is in
-- nanoseconds since the zero time.Time; a string is its bytes, and the case and white space of
-- ASCII are those that the text functions know. A region under a mutex is one function, so a run
-- of the concurrent parts is a sequence of such steps in any order. A map that the code only adds
-- to and tests is a list.
--
-- Loops are structural recursion but for six, which have fuel. `climb` (the search for a level) has
-- the total plus one: each level needs at least one point more, so the loop stops before. The
-- rounds of `interleave` have the number of ids plus one: each round but the last takes an id. `batch_ladder`
-- has more than the two page sizes together: every retry halves one that is above one. The batches of
-- `shuffle_walk` have the number of repositories plus one: every batch but the last walks one. The
-- digits of a number have the number plus one: every digit but the last divides it by 10. The windows
-- of a sweep have the length of its range plus one: every step is at least one nanosecond.
--
-- Parameters, of which nothing is assumed: the floating-point guess of `LevelOf`, the parsers of
-- package net (`Net` and `parse_cidr`), the query behind a pick (`browse`),
-- the one behind the retries (`fetch`), strconv.Atoi in the installer (`atoi`), and which of two
-- issues a draw of the For you feed puts first (`above`), a comparison of floating-point scores.
--
-- Not modelled: the SQL of the catalog, Redis and the GitHub API but for what is named above,
-- logging, metrics and HTTP encoding; the scores of the For you feed and its store of drawn chunks,
-- which answers what would be drawn again; the coordinator, archive, pull request sync,
-- learning paths, themes, sessions and settings of the backend; and the desktop and web programs and
-- the rest of the installer.
pub mod Prelude
pub mod Worker
pub mod Xp
pub mod Search
pub mod Middleware
pub mod Ingest
pub mod Recommendation
pub mod Sync
pub mod Catalog
pub mod Installer
mod Examples
