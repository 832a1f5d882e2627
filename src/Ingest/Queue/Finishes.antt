-- ===== src/Ingest/Queue/Finishes.antt =====
-- What a worker's write (backend/internal/ingest/queue.go) amounts to: one fenced update that stops the
-- row, perhaps a new idle row, perhaps a change to the repositories.
use skill_issues.Prelude.{
  ℕ, suc, ◌+◌, leb, ◌≡◌, refl, false, not, List, none, some, if◌then◌else◌, if_cases,
}
use skill_issues.Prelude.Text.{ascii}
use skill_issues.Prelude.Time.{Time}
use skill_issues.Ingest.Queue.{
  JobType, initial, deep, pending, failed, Repo, JobRow, Store, Job, is_running,
}
use skill_issues.Ingest.Queue.Writes.{
  Written, exec_fenced, then_insert, then_repo, PageProgress, has_more, update_repo, set_watermark,
  finish_pass, requeue_deep, hand_off, deep_row, no_lease, set_failure, set_unavailable, moved,
  backoff, complete_or_requeue, release_job, fail_job, mark_unavailable,
}
use skill_issues.Ingest.Queue.Steps.{Finish, completes, releases, fails, marks_unavailable, finish}

-- What ends a job keeps its key and repository and stops it.
pub record IsEnd (set : JobRow → JobRow) : Type 0 where
  pub same_id : (j : JobRow) → (set j).id ≡ j.id
  pub same_repo : (j : JobRow) → (set j).repository_id ≡ j.repository_id
  pub stops : (j : JobRow) → is_running (set j).status ≡ false

by_type :
    (Q : Written → Type 0) (kind : JobType) {x y : Written}
    → Q x
    → Q y
    → Q (elim kind [ deep ↦ x | initial ↦ y ])
by_type Q deep px py = px
by_type Q initial px py = py

module _ (job : Job) (s : Store) (Q : Written → Type 0)
    (by_exec : (set : JobRow → JobRow) (repos : List Repo)
      → IsEnd set
      → Q (exec_fenced job set (record s { repos = repos })))
    (by_insert : (row : JobRow) (w : Written)
      → is_running row.status ≡ false
      → Q w
      → Q (then_insert row w))
    (by_repo : (id : ℕ) (set : Repo → Repo) (w : Written) → Q w → Q (then_repo id set w)) where
  complete_cases :
      (now : Time) (p : PageProgress) (max_pages : ℕ)
      → Q (complete_or_requeue now job p max_pages s)
  unfolding complete_or_requeue
  complete_cases now p max_pages =
      let more = has_more p max_pages in
      let reached = if more then none else job.pass_started_at in
      let repos = update_repo job.repository_id (set_watermark now reached) s.repos in
      let t = record s { repos = repos } in
      if_cases Q (not more) (exec_fenced job (finish_pass p) t)
        (elim job.job_type [
          | deep ↦ exec_fenced job (requeue_deep now p) t
          | initial ↦ then_insert (deep_row now job p) (exec_fenced job (hand_off p) t)
        ])
        (λ _.
          by_exec (finish_pass p) repos
            (record { same_id = λ _. refl; same_repo = λ _. refl; stops = λ _. refl }))
        (λ _.
          by_type Q job.job_type
            (by_exec (requeue_deep now p) repos
              (record { same_id = λ _. refl; same_repo = λ _. refl; stops = λ _. refl }))
            (by_insert (deep_row now job p) (exec_fenced job (hand_off p) t) refl (
              by_exec (hand_off p) repos
                (record { same_id = λ _. refl; same_repo = λ _. refl; stops = λ _. refl }))))

  pub finish_cases : (now : Time) (f : Finish) → Q (finish now job f s)
  unfolding finish release_job fail_job mark_unavailable
  finish_cases now (completes p max_pages) = complete_cases now p max_pages
  finish_cases now (releases retry_after) =
      by_exec (λ j. record (no_lease pending j) { next_retry_at = some (now + retry_after) })
        s.repos (record { same_id = λ _. refl; same_repo = λ _. refl; stops = λ _. refl })
  finish_cases now (fails class detail base max_attempts) =
      let attempt = suc job.attempt_count in
      let retry = λ (j : JobRow). record (set_failure attempt class detail pending j) {
        next_retry_at = some (moved now (backoff base attempt));
      } in
      if_cases Q (leb max_attempts attempt)
        (exec_fenced job (set_failure attempt class detail failed) s) (exec_fenced job retry s)
        (λ _.
          by_exec (set_failure attempt class detail failed) s.repos
            (record { same_id = λ _. refl; same_repo = λ _. refl; stops = λ _. refl }))
        (λ _.
          by_exec retry s.repos
            (record { same_id = λ _. refl; same_repo = λ _. refl; stops = λ _. refl }))
  finish_cases now (marks_unavailable reason) =
      let set = λ (j : JobRow). record (no_lease failed j) {
        last_error_class = some (ascii "not_found");
        last_error_detail = some reason;
      } in
      by_repo job.repository_id (set_unavailable reason) (exec_fenced job set s) (
        by_exec set s.repos
          (record { same_id = λ _. refl; same_repo = λ _. refl; stops = λ _. refl }))
