-- ===== src/Ingest/Queue/Fencing.antt =====
-- The fence on a job's lease (`execFenced`, backend/internal/ingest/queue.go): a worker whose lease is
-- over writes nothing.
use skill_issues.Prelude.{
  ℕ, ◌+◌, ◌≡◌, refl, ap, subst, Bool, true, false, ◌&&◌, List, [], ◌∷◌, ◌++◌, ◌==◌, any, contains,
  All, arith, if_cases,
}
use skill_issues.Prelude.Int.{ℤ}
use skill_issues.Prelude.Time.{Time}
use skill_issues.Ingest.Queue.{
  JobType, Repo, JobRow, Store, Job, is_running, update_rows, row_ids, lease, select_claims,
  claim_jobs, has_lapsed, give_up, reclaim_expired,
}
use skill_issues.Ingest.Queue.Writes.{
  Written, written, lease_lost, fence, store_after, exec_fenced, then_insert, then_repo,
}
use skill_issues.Ingest.Queue.Keeps.{IsPassive, Keeping, insert-keeps}
use skill_issues.Ingest.Queue.Interleavings.{Reach-keeps}
use skill_issues.Ingest.Queue.Finishes.{IsEnd, finish_cases}
use skill_issues.Ingest.Queue.Steps.{Finish, finish, Reach}

module _ (job : Job) where
  -- No row runs under the job's lease.
  abbrev pub IsOver : Store → Type 0
  IsOver s = any (fence job) s.jobs ≡ false

  -- Whoever claims, it is not the job's owner.
  abbrev pub IsOther : ℕ → Type 0
  IsOther owner = (owner == job.lease_owner) ≡ false

  over-update :
      (matches : JobRow → Bool) (set : JobRow → JobRow) (jobs : List JobRow)
      → ((j : JobRow) → matches j ≡ true → fence job (set j) ≡ true → fence job j ≡ true)
      → any (fence job) jobs ≡ false
      → any (fence job) (update_rows matches set jobs) ≡ false
  over-update matches set [] f h = refl
  over-update matches set (j ∷ js) f h = ground (arith, f j, over-update matches set js f)

  over-append :
      (xs ys : List JobRow)
      → any (fence job) xs ≡ false
      → any (fence job) ys ≡ false
      → any (fence job) (xs ++ ys) ≡ false
  over-append [] ys h k = k
  over-append (x ∷ xs) ys h k = ground (arith, over-append xs ys)

  fence-passive :
      (matches : JobRow → Bool) (set : JobRow → JobRow) (j : JobRow)
      → IsPassive matches set j
      → matches j ≡ true
      → fence job (set j) ≡ true
      → fence job j ≡ true
  fence-passive matches set j p m e =
      let (run, owner) = p.quiet m (ground (arith, e)) in
      ground (arith, e, run, owner, p.tame.same_id)

  claim-IsOver :
      (now : Time) (kind : JobType) (limit : ℤ) (owner lease_time : ℕ) (locked : JobRow → Bool)
      (s : Store)
      → IsOther owner
      → IsOver s
      → IsOver (claim_jobs now kind limit owner lease_time locked s).0
  unfolding claim_jobs
  claim-IsOver now kind limit owner lease_time locked s other h =
      over-update (λ j. contains (row_ids (select_claims now kind limit locked s)) j.id)
        (lease owner (now + lease_time)) s.jobs (λ j _ e. ground arith) h

  keeping-IsOver : Keeping IsOther IsOver
  keeping-IsOver = record {
    claims_keep = claim-IsOver;
    updates_keep = λ matches set s repos f h.
        over-update matches set s.jobs (λ j. fence-passive matches set j (f j)) h;
    adds_keep = λ row s idle free h.
        over-append s.jobs (record row { id = s.next_id } ∷ []) h (ground arith);
    repos_keep = λ s repos h. h;
  }

  -- An error, or a store in which the lease is over.
  abbrev EndsLease : Written → Type 0
  EndsLease (written t) = IsOver t
  EndsLease lease_lost = Unit

  stopped-update :
      (set : JobRow → JobRow) (jobs : List JobRow)
      → ((j : JobRow) → is_running (set j).status ≡ false)
      → any (fence job) (update_rows (fence job) set jobs) ≡ false
  stopped-update set [] f = refl
  stopped-update set (j ∷ js) f = ground (arith, f j, stopped-update set js f)

  exec-ends : (set : JobRow → JobRow) (s : Store) → IsEnd set → EndsLease (exec_fenced job set s)
  unfolding exec_fenced
  exec-ends set s e =
      if_cases EndsLease (any (fence job) s.jobs)
        (written (record s { jobs = update_rows (fence job) set s.jobs })) lease_lost
        (λ _. stopped-update set s.jobs e.stops) (λ _. tt)

  insert-ends :
      (row : JobRow) (w : Written)
      → is_running row.status ≡ false
      → EndsLease w
      → EndsLease (then_insert row w)
  insert-ends row (written t) idle h = insert-keeps IsOther IsOver keeping-IsOver row t idle h
  insert-ends row lease_lost idle h = tt

  repo-ends :
      (id : ℕ) (set : Repo → Repo) (w : Written) → EndsLease w → EndsLease (then_repo id set w)
  repo-ends id set (written t) h = h
  repo-ends id set lease_lost h = tt

  finish-ends : (now : Time) (f : Finish) (s : Store) → EndsLease (finish now job f s)
  finish-ends now f s =
      finish_cases job s EndsLease (λ set repos e. exec-ends set (record s { repos = repos }) e)
        insert-ends repo-ends now f

  exec-lost : (set : JobRow → JobRow) (s : Store) → IsOver s → exec_fenced job set s ≡ lease_lost
  unfolding exec_fenced
  exec-lost set s h = rw h refl

  finish-lost : (now : Time) (f : Finish) (s : Store) → IsOver s → finish now job f s ≡ lease_lost
  finish-lost now f s h =
      finish_cases job s (λ w. w ≡ lease_lost)
        (λ set repos e. exec-lost set (record s { repos = repos }) h)
        (λ row w _ q. ap (then_insert row) q) (λ id set w q. ap (then_repo id set) q) now f

  reclaim-ends :
      (now : Time) (jobs : List JobRow)
      → All (λ (j : JobRow). fence job j ≡ true → has_lapsed now j.lease_expires_at ≡ true) jobs
      → any
          (fence job)
          (update_rows (λ j. is_running j.status && has_lapsed now j.lease_expires_at) give_up jobs)
        ≡ false
  reclaim-ends now [] h = refl
  reclaim-ends now (j ∷ js) h = ground (arith, h.0, reclaim-ends now js h.1)

  -- How a lease comes to its end: a write of its worker's that went through, or a reclaim after it
  -- lapsed.
  pub data Ended (s : Store) : Store → Type 0 where
    by_write : (now : Time) (f : Finish) {t : Store} → finish now job f s ≡ written t → Ended s t
    by_reclaim :
        (now : Time)
        → All (λ (j : JobRow). fence job j ≡ true → has_lapsed now j.lease_expires_at ≡ true) s.jobs
        → Ended s (reclaim_expired now s)

  Ended-IsOver : {s t : Store} → Ended s t → IsOver t
  unfolding reclaim_expired
  Ended-IsOver {s} (by_write now f e) = subst EndsLease e (finish-ends now f s)
  Ended-IsOver {s} (by_reclaim now h) = reclaim-ends now s.jobs h

-- Once a job's lease has ended, by a write of its worker's that went through or by a reclaim after it
-- lapsed, and until its owner claims again, whatever other steps come between: every write with that
-- job is refused as a lost lease, and the tables stay as they are.
pub finish-lease_lost :
    (job : Job) {s t u : Store} (now : Time) (f : Finish)
    → Ended job s t
    → Reach (IsOther job) t u
    → (finish now job f u ≡ lease_lost) × (store_after u (finish now job f u) ≡ u)
finish-lease_lost job {s} {t} {u} now f e r =
    let over = Reach-keeps (IsOther job) (IsOver job) (keeping-IsOver job) (Ended-IsOver job e) r in
    let lost = finish-lost job now f u over in (lost, ap (store_after u) lost)
