-- ===== src/Examples/Queue.antt =====
-- Runs of the crawl queue (backend/internal/ingest/queue.go): one repository, and the coordinators 7
-- and 8.
use skill_issues.Prelude.{
  ℕ, ◌≤◌, ◌≡◌, refl, Bool, true, false, ◌&&◌, not, none, [], ◌∷◌, any, length, All, arith,
}
use skill_issues.Prelude.Int.{pos}
use skill_issues.Prelude.Sort.{sort_stable, insert_by}
use skill_issues.Prelude.Text.{ascii}
use skill_issues.Ingest.Queue.{
  initial, JobRow, Store, Job, job_of, claimable, select_claims, claim_jobs, reclaim_expired,
}
use skill_issues.Ingest.Queue.Writes.{
  written, lease_lost, fence, store_after, exec_fenced, insert_job, complete_or_requeue,
  release_job, PageProgress, backoff,
}
use skill_issues.Ingest.Queue.Enqueue.{unqueued, enqueue_initial, initial_row}
use skill_issues.Ingest.Queue.Steps.{
  Finish, completes, releases, fails, finish, Reach, claims, finishes, seeds,
}
use skill_issues.Ingest.Queue.OneActive.{IsSound}
use skill_issues.Ingest.Queue.Exclusive.{Reach-IsSound}
use skill_issues.Ingest.Queue.Leased.{Passes, claim-fence}
use skill_issues.Ingest.Queue.Fencing.{by_write, finish-lease_lost}

abbrev empty : Store
empty = record {
  repos =
      record {
        id = 1;
        is_eligible = true;
        eligibility_reason = none;
        last_synced_at = none;
        issues_synced_through = none;
      }
      ∷ [];
  jobs = [];
  next_id = 1;
}

abbrev seeded : Store
seeded = enqueue_initial 100 5 empty

abbrev unlocked : JobRow → Bool
unlocked j = false

abbrev leased : Store
leased = (claim_jobs 100 initial (pos 0) 7 30 unlocked seeded).0

-- What coordinator 7 is given.
abbrev job : Job
job = job_of 7 (record (initial_row 100 1 none) { id = 1 })

leased_job : (claim_jobs 100 initial (pos 0) 7 30 unlocked seeded).1 ≡ job ∷ []
unfolding enqueue_initial unqueued claim_jobs select_claims sort_stable insert_by
leased_job = refl

claim-fence_example :
    (length (job ∷ []) ≤ 1)
    × (All
          (Passes (λ j. claimable 100 initial seeded.repos j && not (unlocked j)))
          (select_claims 100 initial (pos 0) unlocked seeded)
        × All (λ (j : Job). any (fence j) leased.jobs ≡ true) (job ∷ []))
unfolding enqueue_initial unqueued claim_jobs select_claims sort_stable insert_by
claim-fence_example = claim-fence 100 initial (pos 0) 7 30 unlocked seeded

-- The first page has a second one after it: the initial job hands off to a deep one.
abbrev first_page : PageProgress
first_page = record {
  open_cursor = ascii "c1";
  open_finished = false;
  closed_cursor_at = ascii "";
  closed_finished = true;
  pages = 1;
}

abbrev handed_off : Store
handed_off = store_after leased (finish 110 job (completes first_page 0) leased)

handed_off_jobs : length handed_off.jobs ≡ 2
unfolding enqueue_initial unqueued claim_jobs select_claims sort_stable insert_by finish
    complete_or_requeue exec_fenced insert_job
handed_off_jobs = refl

empty-IsSound : IsSound empty
empty-IsSound = record { fresh = tt; distinct = tt; single = λ repo. omega arith }

abbrev Anyone : ℕ → Type 0
Anyone owner = Unit

hand_off_run : Reach Anyone empty handed_off
hand_off_run =
    Reach.next
      (Reach.next (Reach.next Reach.here (seeds 100 5))
        (claims 100 initial (pos 0) 7 30 unlocked tt))
      (finishes 110 job (completes first_page 0))

Reach-IsSound_example : IsSound handed_off
Reach-IsSound_example = Reach-IsSound empty-IsSound hand_off_run

-- Coordinator 7 releases the job, and 8 claims it.
abbrev released : Store
released = store_after leased (finish 110 job (releases 60) leased)

abbrev taken : Store
taken = (claim_jobs 200 initial (pos 1) 8 30 unlocked released).0

released_written : finish 110 job (releases 60) leased ≡ written released
unfolding enqueue_initial unqueued claim_jobs select_claims sort_stable insert_by finish release_job
    exec_fenced
released_written = refl

abbrev late : Finish
late = fails (ascii "fetch_error") (ascii "timeout") 1000000000 3

finish-lease_lost_example :
    (finish 210 job late taken ≡ lease_lost)
    × (store_after taken (finish 210 job late taken) ≡ taken)
finish-lease_lost_example =
    finish-lease_lost job 210 late (by_write 110 (releases 60) released_written)
      (Reach.next Reach.here (claims 200 initial (pos 1) 8 30 unlocked refl))

-- When the same coordinator claims the job again, a late write of its first lease passes the fence:
-- the fence compares the owner, and both leases have the same one.
abbrev retaken : Store
retaken = (claim_jobs 200 initial (pos 1) 7 30 unlocked (reclaim_expired 150 leased)).0

late_write_accepted : any (fence job) retaken.jobs ≡ true
unfolding enqueue_initial unqueued claim_jobs select_claims sort_stable insert_by reclaim_expired
late_write_accepted = refl

-- At the greatest base and attempt that the settings allow, and past what 64 bits hold.
backoff_greatest : backoff 60000000000 10 ≡ pos 61440000000000
unfolding backoff
backoff_greatest = refl

backoff_wrapped : backoff 60000000000 64 ≡ pos 0
unfolding backoff
backoff_wrapped = refl
