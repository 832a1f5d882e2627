-- ===== src/Ingest/Queue/Steps.antt =====
-- What happens to the tables of the crawl queue, as a step relation: each statement, or transaction,
-- of backend/internal/ingest/queue.go is one step, and the coordinators' steps interleave in any
-- order. A worker's step is one write with a job that it was given, however long ago.
use skill_issues.Prelude.{ℕ, Bool, List}
use skill_issues.Prelude.Int.{ℤ}
use skill_issues.Prelude.Text.{Text}
use skill_issues.Prelude.Time.{Time}
use skill_issues.Ingest.Queue.{JobType, Repo, JobRow, Store, Job, claim_jobs, reclaim_expired}
use skill_issues.Ingest.Queue.Writes.{
  Written, PageProgress, store_after, complete_or_requeue, release_job, fail_job, mark_unavailable,
}
use skill_issues.Ingest.Queue.Enqueue.{enqueue_initial, enqueue_freshness, prioritize}

-- The writes that a worker ends a job with, with their arguments.
pub data Finish : Type 0 where
  completes : PageProgress → ℕ → Finish
  releases : ℕ → Finish
  fails : Text → Text → ℕ → ℕ → Finish
  marks_unavailable : Text → Finish

unfoldable pub finish : Time → Job → Finish → Store → Written
finish now job (completes p max_pages) s = complete_or_requeue now job p max_pages s
finish now job (releases retry_after) s = release_job now job retry_after s
finish now job (fails class detail base max_attempts) s =
    fail_job now job class detail base max_attempts s
finish now job (marks_unavailable reason) s = mark_unavailable job reason s

-- `by` says who may claim.
pub data Step (by : ℕ → Type 0) (s : Store) : Store → Type 0 where
  claims :
      (now : Time) (kind : JobType) (limit : ℤ) (owner lease_time : ℕ) (locked : JobRow → Bool)
      → by owner
      → Step by s (claim_jobs now kind limit owner lease_time locked s).0
  finishes : (now : Time) (job : Job) (f : Finish) → Step by s (store_after s (finish now job f s))
  reclaims : (now : Time) → Step by s (reclaim_expired now s)
  seeds : (now : Time) (limit : ℕ) → Step by s (enqueue_initial now limit s)
  refreshes :
      (now : Time) (limit : ℤ) (older_than : ℕ)
      → Step by s (enqueue_freshness now limit older_than s)
  prioritizes : (now : Time) (repo : ℕ) → Step by s (prioritize now repo s)
  -- the importer, the sweepers and the recompute of eligibility write repositories only
  writes_repos : (repos : List Repo) → Step by s (record s { repos = repos })

pub data Reach (by : ℕ → Type 0) (s : Store) : Store → Type 0 where
  here : Reach by s s
  next : {t u : Store} → Reach by s t → Step by t u → Reach by s u
