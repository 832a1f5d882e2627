-- ===== src/Ingest/Queue/Interleavings.antt =====
-- A property that each kind of change keeps is kept by every interleaving of the crawl queue's
-- statements (backend/internal/ingest/queue.go).
use skill_issues.Prelude.{
  ℕ, ltb, ◌≡◌, refl, false, ◌&&◌, Option, none, some, List, [], ◌∷◌, map, ◌==◌, take, All, arith,
  if_cases,
}
use skill_issues.Prelude.Int.{ℤ, pos_part}
use skill_issues.Prelude.Time.{Time}
use skill_issues.Ingest.Queue.{
  Repo, JobRow, Store, is_running, update_rows, has_lapsed, give_up, reclaim_expired,
}
use skill_issues.Ingest.Queue.Writes.{is_active, has_active, add_job, insert_job}
use skill_issues.Ingest.Queue.Enqueue.{
  unqueued, due_repos, insert_jobs, insert_strictly, or_unchanged, enqueue_initial,
  enqueue_freshness, prioritize, initial_row,
}
use skill_issues.Ingest.Queue.Steps.{
  Step, claims, finishes, reclaims, seeds, refreshes, prioritizes, writes_repos, Reach, here, next,
}
use skill_issues.Ingest.Queue.Keeps.{Keeping, insert-keeps, finish-keeps}

abbrev IsIdle : JobRow → Type 0
IsIdle row = is_running row.status ≡ false

initial_rows-IsIdle :
    (now : Time) (since : Repo → Option Time) (repos : List Repo)
    → All IsIdle (map (λ (r : Repo). initial_row now r.id (since r)) repos)
initial_rows-IsIdle now since [] = tt
initial_rows-IsIdle now since (r ∷ rs) = (refl, initial_rows-IsIdle now since rs)

module _ (by : ℕ → Type 0) (P : Store → Type 0) (k : Keeping by P) where
  insert_jobs-keeps :
      (rows : List JobRow) (s : Store) → All IsIdle rows → P s → P (insert_jobs rows s)
  insert_jobs-keeps [] s idle h = h
  insert_jobs-keeps (row ∷ rows) s idle h =
      insert_jobs-keeps rows (insert_job row s) idle.1 (insert-keeps by P k row s idle.0 h)

  insert_strictly-keeps :
      (old : Store) (rows : List JobRow) (s : Store)
      → All IsIdle rows
      → P old
      → P s
      → P (or_unchanged old (insert_strictly rows s))
  insert_strictly-keeps old [] s idle ho h = h
  insert_strictly-keeps old (row ∷ rows) s idle ho h =
      if_cases (λ o. P (or_unchanged old o)) (has_active row.repository_id s.jobs) none
        (insert_strictly rows (add_job row s)) (λ _. ho)
        (λ free.
          insert_strictly-keeps old rows (add_job row s) idle.1 ho
            (k.adds_keep row s idle.0 free h))

  reclaim-keeps : (now : Time) (s : Store) → P s → P (reclaim_expired now s)
  unfolding reclaim_expired
  reclaim-keeps now s h =
      k.updates_keep (λ j. is_running j.status && has_lapsed now j.lease_expires_at) give_up s
        s.repos
        (λ j. record {
          tame = record { same_id = refl; same_repo = refl; stays = λ m _. ground arith };
          quiet = λ _ r. ground arith;
        })
        h

  prioritize-keeps : (now : Time) (repo : ℕ) (s : Store) → P s → P (prioritize now repo s)
  unfolding prioritize
  prioritize-keeps now repo s h =
      let due = λ (j : JobRow). record j { next_retry_at = some now } in
      let matches = λ (j : JobRow). j.repository_id == repo && is_active j in
      if_cases P (has_active repo s.jobs) (record s { jobs = update_rows matches due s.jobs })
        (add_job (initial_row now repo none) s)
        (λ _.
          k.updates_keep matches due s s.repos
            (λ j. record {
              tame = record { same_id = refl; same_repo = refl; stays = λ _ a. a };
              quiet = λ _ r. (r, refl);
            })
            h)
        (λ free. k.adds_keep (initial_row now repo none) s refl free h)

  enqueue_initial-keeps :
      (now : Time) (limit : ℕ) (s : Store) → P s → P (enqueue_initial now limit s)
  unfolding enqueue_initial
  enqueue_initial-keeps now limit s h =
      insert_strictly-keeps s
        (map (λ (r : Repo). initial_row now r.id none) (take limit (unqueued s))) s
        (initial_rows-IsIdle now (λ _. none) (take limit (unqueued s))) h h

  enqueue_freshness-keeps :
      (now : Time) (limit : ℤ) (older_than : ℕ) (s : Store)
      → P s
      → P (enqueue_freshness now limit older_than s)
  unfolding enqueue_freshness
  enqueue_freshness-keeps now limit older_than s h =
      let rows =
        map (λ (r : Repo). initial_row now r.id r.issues_synced_through)
          (due_repos now (pos_part limit) older_than s) in
      if_cases P (ltb 0 (pos_part limit)) (insert_jobs rows s) s
        (λ _.
          insert_jobs-keeps rows s
            (initial_rows-IsIdle now (λ r. r.issues_synced_through)
              (due_repos now (pos_part limit) older_than s))
            h)
        (λ _. h)

  Step-keeps : {s t : Store} → Step by s t → P s → P t
  Step-keeps {s} (claims now kind limit owner lease_time locked may) h =
      k.claims_keep now kind limit owner lease_time locked s may h
  Step-keeps {s} (finishes now job f) h = finish-keeps by P k now job f s h
  Step-keeps {s} (reclaims now) h = reclaim-keeps now s h
  Step-keeps {s} (seeds now limit) h = enqueue_initial-keeps now limit s h
  Step-keeps {s} (refreshes now limit older_than) h =
      enqueue_freshness-keeps now limit older_than s h
  Step-keeps {s} (prioritizes now repo) h = prioritize-keeps now repo s h
  Step-keeps {s} (writes_repos repos) h = k.repos_keep s repos h

  pub Reach-keeps : {s t : Store} → P s → Reach by s t → P t
  Reach-keeps h here = h
  Reach-keeps h (next r st) = Step-keeps st (Reach-keeps h r)
