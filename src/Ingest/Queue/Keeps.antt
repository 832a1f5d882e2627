-- ===== src/Ingest/Queue/Keeps.antt =====
-- Every statement of the crawl queue (backend/internal/ingest/queue.go) keeps one active job for each
-- repository.
use skill_issues.Prelude.{ℕ, ◌≡◌, Bool, true, false, List, [], ◌∷◌, any, All, arith, if_cases}
use skill_issues.Prelude.Int.{ℤ}
use skill_issues.Prelude.Time.{Time}
use skill_issues.Ingest.Queue.{
  JobType, Repo, JobRow, Store, Job, is_running, update_rows, claim_jobs,
}
use skill_issues.Ingest.Queue.Writes.{
  Written, written, lease_lost, fence, store_after, exec_fenced, is_active, has_active, add_job,
  insert_job, then_insert, then_repo, update_repo,
}
use skill_issues.Ingest.Queue.Steps.{Finish, finish}
use skill_issues.Ingest.Queue.Finishes.{IsEnd, finish_cases}
use skill_issues.Ingest.Queue.OneActive.{IsTame}

-- An update that keeps a row's key and repository, makes no inactive row active, and makes no row run
-- under a lease that it did not run under.
pub record IsPassive (matches : JobRow → Bool) (set : JobRow → JobRow) (j : JobRow) : Type 0 where
  pub tame : IsTame matches set j
  pub quiet :
      matches j ≡ true
      → is_running (set j).status ≡ true
      → (is_running j.status ≡ true) × ((set j).lease_owner ≡ j.lease_owner)

pub All-IsTame :
    (matches : JobRow → Bool) (set : JobRow → JobRow)
    → ((j : JobRow) → IsPassive matches set j)
    → (jobs : List JobRow) → All (IsTame matches set) jobs
All-IsTame matches set f [] = tt
All-IsTame matches set f (j ∷ js) = ((f j).tame, All-IsTame matches set f js)

-- What a property of the store needs in order to survive each kind of change.
pub record Keeping (by : ℕ → Type 0) (P : Store → Type 0) : Type 0 where
  pub claims_keep :
      (now : Time) (kind : JobType) (limit : ℤ) (owner lease_time : ℕ) (locked : JobRow → Bool)
      (s : Store)
      → by owner
      → P s
      → P (claim_jobs now kind limit owner lease_time locked s).0
  pub updates_keep :
      (matches : JobRow → Bool) (set : JobRow → JobRow) (s : Store) (repos : List Repo)
      → ((j : JobRow) → IsPassive matches set j)
      → P s
      → P (record s { repos = repos; jobs = update_rows matches set s.jobs })
  pub adds_keep :
      (row : JobRow) (s : Store)
      → is_running row.status ≡ false
      → has_active row.repository_id s.jobs ≡ false
      → P s
      → P (add_job row s)
  pub repos_keep : (s : Store) (repos : List Repo) → P s → P (record s { repos = repos })

-- A row under a lease is running, so it is active already.
fence-active : (job : Job) (j : JobRow) → fence job j ≡ true → is_active j ≡ true
fence-active job j m = ground arith

end-IsPassive :
    (job : Job) (set : JobRow → JobRow) (j : JobRow) → IsEnd set → IsPassive (fence job) set j
end-IsPassive job set j e = record {
  tame = record {
    same_id = e.same_id j;
    same_repo = e.same_repo j;
    stays = λ m _. fence-active job j m;
  };
  quiet = λ _ r. ground (arith, e.stops j);
}

module _ (by : ℕ → Type 0) (P : Store → Type 0) (k : Keeping by P) where
  pub insert-keeps :
      (row : JobRow) (s : Store) → is_running row.status ≡ false → P s → P (insert_job row s)
  unfolding insert_job
  insert-keeps row s idle h =
      if_cases P (has_active row.repository_id s.jobs) s (add_job row s) (λ _. h)
        (λ free. k.adds_keep row s idle free h)

  exec_fenced-keeps :
      (job : Job) (set : JobRow → JobRow) (s : Store) (repos : List Repo)
      → IsEnd set
      → P s
      → (old : Store) → P old
      → P (store_after old (exec_fenced job set (record s { repos = repos })))
  unfolding exec_fenced
  exec_fenced-keeps job set s repos e h old ho =
      if_cases (λ w. P (store_after old w)) (any (fence job) s.jobs)
        (written (record s { repos = repos; jobs = update_rows (fence job) set s.jobs })) lease_lost
        (λ _. k.updates_keep (fence job) set s repos (λ j. end-IsPassive job set j e) h) (λ _. ho)

  then_insert-keeps :
      (row : JobRow) (old : Store) (w : Written)
      → is_running row.status ≡ false
      → P old
      → P (store_after old w)
      → P (store_after old (then_insert row w))
  then_insert-keeps row old (written t) idle ho h = insert-keeps row t idle h
  then_insert-keeps row old lease_lost idle ho h = ho

  then_repo-keeps :
      (id : ℕ) (set : Repo → Repo) (old : Store) (w : Written)
      → P (store_after old w)
      → P (store_after old (then_repo id set w))
  then_repo-keeps id set old (written t) h = k.repos_keep t (update_repo id set t.repos) h
  then_repo-keeps id set old lease_lost h = h

  pub finish-keeps :
      (now : Time) (job : Job) (f : Finish) (s : Store)
      → P s
      → P (store_after s (finish now job f s))
  finish-keeps now job f s h =
      finish_cases job s (λ w. P (store_after s w))
        (λ set repos e. exec_fenced-keeps job set s repos e h s h)
        (λ row w idle q. then_insert-keeps row s w idle h q)
        (λ id set w q. then_repo-keeps id set s w q) now f
