-- ===== src/Ingest/Queue/Writes.antt =====
-- The writes that finish a job, each fenced on its lease (backend/internal/ingest/queue.go).
use skill_issues.Prelude.{
  ℕ, suc, ◌+◌, ◌-◌, ◌*◌, ◌%◌, ◌^◌, max, Bool, true, false, not, ◌&&◌, ◌||◌, Option, none, some,
  List, [], ◌∷◌, ◌++◌, map, ltb, leb, ◌==◌, if◌then◌else◌, any,
}
use skill_issues.Prelude.Int.{ℤ, pos, negsuc}
use skill_issues.Prelude.Text.{Text, ascii}
use skill_issues.Prelude.Time.{Time}
use skill_issues.Ingest.Queue.{
  initial, deep, Status, pending, done, failed, Repo, JobRow, Store, Job, is_running, is_pending,
  owned_by, update_rows,
}

-- A write that found no row under the lease is an error, and its transaction is rolled back.
pub data Written : Type 0 where
  written : Store → Written
  lease_lost : Written

-- `fenceJob`
abbrev pub fence : Job → JobRow → Bool
fence job j = j.id == job.id && (is_running j.status && owned_by j.lease_owner job.lease_owner)

-- The store after a write; an error leaves it.
abbrev pub store_after : Store → Written → Store
store_after s (written t) = t
store_after s lease_lost = s

-- `execFenced`
unfoldable pub exec_fenced : Job → (JobRow → JobRow) → Store → Written
exec_fenced job set s =
    if any (fence job) s.jobs
    then written (record s { jobs = update_rows (fence job) set s.jobs })
    else lease_lost

abbrev pub no_lease : Status → JobRow → JobRow
no_lease st j = record j { status = st; lease_owner = none; lease_expires_at = none }

pub record PageProgress : Type 0 where
  pub open_cursor : Text
  pub open_finished : Bool
  pub closed_cursor_at : Text
  pub closed_finished : Bool
  pub pages : ℕ

abbrev pub set_progress : PageProgress → JobRow → JobRow
set_progress p j = record j {
  cursor = some p.open_cursor;
  closed_cursor = some p.closed_cursor_at;
  pages_done = p.pages;
  open_done = p.open_finished;
  closed_done = p.closed_finished;
}

-- The three updates of `CompleteOrRequeue`.
abbrev pub finish_pass : PageProgress → JobRow → JobRow
finish_pass p j = record (no_lease done (set_progress p j)) {
  has_next_page = false;
  next_retry_at = none;
}

abbrev pub requeue_deep : Time → PageProgress → JobRow → JobRow
requeue_deep now p j = record (no_lease pending (set_progress p j)) {
  has_next_page = true;
  next_retry_at = some now;
  attempt_count = 0;
}

abbrev pub hand_off : PageProgress → JobRow → JobRow
hand_off p j = record (no_lease done (set_progress p j)) {
  has_next_page = true;
  next_retry_at = none;
}

-- GREATEST ignores a NULL.
abbrev pub greatest : Option Time → Time → Time
greatest none t = t
greatest (some s) t = max s t

abbrev pub set_watermark : Time → Option Time → Repo → Repo
set_watermark now none r = record r { last_synced_at = some now }
set_watermark now (some t) r = record r {
  last_synced_at = some now;
  issues_synced_through = some (greatest r.issues_synced_through t);
}

abbrev pub update_repo : ℕ → (Repo → Repo) → List Repo → List Repo
update_repo id set repos = map (λ (r : Repo). if r.id == id then set r else r) repos

abbrev pub is_active : JobRow → Bool
is_active j = is_pending j.status || is_running j.status

abbrev pub has_active : ℕ → List JobRow → Bool
has_active repo jobs = any (λ (j : JobRow). j.repository_id == repo && is_active j) jobs

-- A new row takes the next id.
abbrev pub add_job : JobRow → Store → Store
add_job row s = record s {
  jobs = s.jobs ++ (record row { id = s.next_id } ∷ []);
  next_id = suc s.next_id;
}

-- ON CONFLICT with the index of active rows DO NOTHING.
unfoldable pub insert_job : JobRow → Store → Store
insert_job row s = if has_active row.repository_id s.jobs then s else add_job row s

abbrev pub coalesce : Option Time → Time → Time
coalesce none t = t
coalesce (some s) t = s

abbrev pub deep_row : Time → Job → PageProgress → JobRow
deep_row now job p = record {
  id = 0;
  repository_id = job.repository_id;
  job_type = deep;
  status = pending;
  attempt_count = 0;
  lease_owner = none;
  lease_expires_at = none;
  next_retry_at = some now;
  cursor = some p.open_cursor;
  closed_cursor = some p.closed_cursor_at;
  pages_done = p.pages;
  open_done = p.open_finished;
  closed_done = p.closed_finished;
  has_next_page = true;
  since = job.since;
  pass_started_at = some (coalesce job.pass_started_at now);
  last_error_class = none;
  last_error_detail = none;
}

-- `maxPages > 0 && p.PagesDone >= maxPages`
abbrev pub is_capped : PageProgress → ℕ → Bool
is_capped p max_pages = ltb 0 max_pages && leb max_pages p.pages

abbrev pub has_more : PageProgress → ℕ → Bool
has_more p max_pages = not (is_capped p max_pages) && not (p.open_finished && p.closed_finished)

abbrev pub then_insert : JobRow → Written → Written
then_insert row (written s) = written (insert_job row s)
then_insert row lease_lost = lease_lost

unfoldable pub complete_or_requeue : Time → Job → PageProgress → ℕ → Store → Written
unfolding exec_fenced insert_job
complete_or_requeue now job p max_pages s =
    let more = has_more p max_pages in
    let reached = if more then none else job.pass_started_at in
    let t = record s {
      repos = update_repo job.repository_id (set_watermark now reached) s.repos;
    } in
    if not more then exec_fenced job (finish_pass p) t else (elim job.job_type [
      | deep ↦ exec_fenced job (requeue_deep now p) t
      | initial ↦ then_insert (deep_row now job p) (exec_fenced job (hand_off p) t)
    ])

unfoldable pub release_job : Time → Job → ℕ → Store → Written
unfolding exec_fenced
release_job now job retry_after s =
    exec_fenced job (λ j. record (no_lease pending j) { next_retry_at = some (now + retry_after) })
      s

abbrev pub set_failure : ℕ → Text → Text → Status → JobRow → JobRow
set_failure attempt class detail st j = record (no_lease st j) {
  attempt_count = attempt;
  last_error_class = some class;
  last_error_detail = some detail;
}

-- A product as a signed 64-bit integer holds it.
abbrev pub int64 : ℕ → ℤ
int64 n = let m = n % 2 ^ 64 in if ltb m (2 ^ 63) then pos m else negsuc (2 ^ 64 - m - 1)

-- `now() + ($6 * interval '1 second')`; a time before the clock's zero is that zero.
abbrev pub moved : Time → ℤ → Time
moved now (pos n) = now + n
moved now (negsuc n) = now - suc n

-- `backoffBase * time.Duration(1<<uint(attempt))`, in nanoseconds.
unfoldable pub backoff : ℕ → ℕ → ℤ
backoff backoff_base attempt = int64 (backoff_base * 2 ^ attempt)

unfoldable pub fail_job : Time → Job → Text → Text → ℕ → ℕ → Store → Written
unfolding exec_fenced backoff
fail_job now job class detail backoff_base max_attempts s =
    let attempt = suc job.attempt_count in
    if leb max_attempts attempt
    then exec_fenced job (set_failure attempt class detail failed) s
    else exec_fenced job
        (λ j. record (set_failure attempt class detail pending j) {
          next_retry_at = some (moved now (backoff backoff_base attempt));
        })
        s

abbrev pub set_unavailable : Text → Repo → Repo
set_unavailable reason r = record r { is_eligible = false; eligibility_reason = some reason }

abbrev pub then_repo : ℕ → (Repo → Repo) → Written → Written
then_repo id set (written s) = written (record s { repos = update_repo id set s.repos })
then_repo id set lease_lost = lease_lost

-- `MarkUnavailable`: both updates, or neither.
unfoldable pub mark_unavailable : Job → Text → Store → Written
unfolding exec_fenced
mark_unavailable job reason s = then_repo job.repository_id (set_unavailable reason) (
    exec_fenced job
      (λ j. record (no_lease failed j) {
        last_error_class = some (ascii "not_found");
        last_error_detail = some reason;
      })
      s)
