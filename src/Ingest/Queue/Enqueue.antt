-- ===== src/Ingest/Queue/Enqueue.antt =====
-- The statements that add jobs (backend/internal/ingest/queue.go), each a list of rows to insert in
-- turn, and the trigger of cmd/ingestd for one repository.
use skill_issues.Prelude.{
  ℕ, ◌+◌, Bool, false, not, ◌&&◌, Option, none, some, List, [], ◌∷◌, map, ltb, ◌==◌, if◌then◌else◌,
  keep, any, take,
}
use skill_issues.Prelude.Int.{ℤ, pos_part}
use skill_issues.Prelude.Sort.{sort_stable}
use skill_issues.Prelude.Time.{Time}
use skill_issues.Ingest.Queue.{initial, pending, Repo, JobRow, Store, update_rows}
use skill_issues.Ingest.Queue.Writes.{is_active, has_active, add_job, insert_job}

-- A row of the columns that an enqueue gives; `pass_started_at` is the clock by default.
abbrev pub initial_row : Time → ℕ → Option Time → JobRow
initial_row now repo since = record {
  id = 0;
  repository_id = repo;
  job_type = initial;
  status = pending;
  attempt_count = 0;
  lease_owner = none;
  lease_expires_at = none;
  next_retry_at = some now;
  cursor = none;
  closed_cursor = none;
  pages_done = 0;
  open_done = false;
  closed_done = false;
  has_next_page = false;
  since = since;
  pass_started_at = some now;
  last_error_class = none;
  last_error_detail = none;
}

abbrev pub insert_jobs : List JobRow → Store → Store
insert_jobs [] s = s
insert_jobs (row ∷ rows) s = insert_jobs rows (insert_job row s)

-- Without ON CONFLICT, a conflict is an error and no row is inserted.
abbrev pub insert_strictly : List JobRow → Store → Option Store
insert_strictly [] s = some s
insert_strictly (row ∷ rows) s =
    if has_active row.repository_id s.jobs then none else insert_strictly rows (add_job row s)

abbrev pub has_job : List JobRow → ℕ → Bool
has_job jobs repo = any (λ (j : JobRow). j.repository_id == repo) jobs

-- The repositories that have no row at all, in the order that the database reads them.
unfoldable pub unqueued : Store → List Repo
unqueued s = keep (λ (r : Repo). r.is_eligible && not (has_job s.jobs r.id)) s.repos

abbrev pub or_unchanged : Store → Option Store → Store
or_unchanged s none = s
or_unchanged s (some t) = t

-- `EnqueueInitialJobs`; a negative limit is an error of the database's.
unfoldable pub enqueue_initial : Time → ℕ → Store → Store
unfolding unqueued
enqueue_initial now limit s =
    or_unchanged s
      (insert_strictly (map (λ (r : Repo). initial_row now r.id none) (take limit (unqueued s))) s)

-- `last_synced_at IS NOT NULL AND last_synced_at < now() - older_than`
abbrev pub is_stale : Time → ℕ → Option Time → Bool
is_stale now older_than none = false
is_stale now older_than (some t) = ltb (t + older_than) now

abbrev pub synced_at : Option Time → Time
synced_at none = 0
synced_at (some t) = t

abbrev pub synced_before : Repo → Repo → Bool
synced_before a b = ltb (synced_at a.last_synced_at) (synced_at b.last_synced_at)

-- The query `due`.
unfoldable pub due_repos : Time → ℕ → ℕ → Store → List Repo
due_repos now limit older_than s = take limit (
    sort_stable synced_before (
      keep
        (λ (r : Repo).
          r.is_eligible
          && (is_stale now older_than r.last_synced_at && not (has_active r.id s.jobs)))
        s.repos))

-- `EnqueueFreshnessJobs`
unfoldable pub enqueue_freshness : Time → ℤ → ℕ → Store → Store
unfolding due_repos
enqueue_freshness now limit older_than s =
    if ltb 0 (pos_part limit)
    then insert_jobs
        (map (λ (r : Repo). initial_row now r.id r.issues_synced_through)
          (due_repos now (pos_part limit) older_than s))
        s
    else s

-- `POST /sync/priority/{id}` of cmd/ingestd: a new job, or the active one made due.
unfoldable pub prioritize : Time → ℕ → Store → Store
prioritize now repo s =
    if has_active repo s.jobs
    then record s {
      jobs =
          update_rows (λ (j : JobRow). j.repository_id == repo && is_active j)
            (λ j. record j { next_retry_at = some now }) s.jobs;
    }
    else add_job (initial_row now repo none) s
