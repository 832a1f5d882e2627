-- ===== src/Ingest/Queue/Exclusive.antt =====
-- One active job for each repository, under any interleaving (backend/internal/ingest/queue.go and the
-- index `ingest_jobs_active_repo_idx`).
use skill_issues.Prelude.{ℕ}
use skill_issues.Ingest.Queue.{Store}
use skill_issues.Ingest.Queue.OneActive.{IsSound, update-IsSound, add-IsSound}
use skill_issues.Ingest.Queue.Claims.{claim-IsSound}
use skill_issues.Ingest.Queue.Keeps.{Keeping, All-IsTame}
use skill_issues.Ingest.Queue.Interleavings.{Reach-keeps}
use skill_issues.Ingest.Queue.Steps.{Reach}

keeping-IsSound : (by : ℕ → Type 0) → Keeping by IsSound
keeping-IsSound by = record {
  claims_keep = λ now kind limit owner lease_time locked s _ h.
      claim-IsSound now kind limit locked s owner lease_time h;
  updates_keep = λ matches set s repos f h.
      update-IsSound matches set s repos (All-IsTame matches set f s.jobs) h;
  adds_keep = λ row s _ free h. add-IsSound row s free h;
  repos_keep = λ s repos h. record { fresh = h.fresh; distinct = h.distinct; single = h.single };
}

-- From a store whose job keys are distinct and below the sequence's next value, with at most one
-- active job for each repository, any interleaving of claims, worker writes (with a stale job too),
-- reclaims, enqueues, priority triggers and writes to the repositories leads to a store of which the
-- same holds.
pub Reach-IsSound : {by : ℕ → Type 0} {s t : Store} → IsSound s → Reach by s t → IsSound t
Reach-IsSound {by} h r = Reach-keeps by IsSound (keeping-IsSound by) h r
