-- ===== src/Ingest/Queue/Leased.antt =====
-- What a claim hands out (`ClaimJobs`, backend/internal/ingest/queue.go): leases that hold.
use skill_issues.Prelude.{
  ℕ, ◌+◌, ◌≤◌, ◌≡◌, Bool, true, ◌&&◌, not, List, [], ◌∷◌, map, ◌==◌, keep, length, length-map,
  length-take, any, contains, All, All-map, All-both, All-take, All-keep, All-keep_test, arith,
  Bool-cases, inl, inr,
}
use skill_issues.Prelude.Int.{ℤ}
use skill_issues.Prelude.Sort.{sort_stable, All-sort_stable}
use skill_issues.Prelude.Time.{Time}
use skill_issues.Ingest.Queue.{
  JobType, JobRow, Store, Job, at_least_one, claimable, claimed_before, update_rows, row_ids, lease,
  job_of, select_claims, claim_jobs,
}
use skill_issues.Ingest.Queue.Writes.{fence}

abbrev HasKey : List JobRow → JobRow → Type 0
HasKey jobs x = contains (row_ids jobs) x.id ≡ true

HasKey-cons : (y x : JobRow) (jobs : List JobRow) → HasKey jobs x → HasKey (y ∷ jobs) x
HasKey-cons y x jobs h = ground (arith, h)

own_keys : (jobs : List JobRow) → All (HasKey jobs) jobs
own_keys [] = tt
own_keys (j ∷ js) =
    (ground arith, All-map (HasKey js) (HasKey (j ∷ js)) (λ x. HasKey-cons j x js) js (own_keys js))

abbrev pub Passes : (JobRow → Bool) → JobRow → Type 0
Passes p x = p x ≡ true

-- A row of the table whose key is among those claimed runs under the new lease.
fence-lease :
    (owner : ℕ) (until_at : Time) (ids : List ℕ) (x : JobRow) (jobs : List JobRow)
    → HasKey jobs x
    → contains ids x.id ≡ true
    → any
        (fence (job_of owner x))
        (update_rows (λ j. contains ids j.id) (lease owner until_at) jobs)
      ≡ true
fence-lease owner until_at ids x [] k c = ground arith
fence-lease owner until_at ids x (j ∷ js) k c = elim (Bool-cases (j.id == x.id)) [
  | inl e ↦
      let at : j.id ≡ x.id = ground arith in
      let c' : contains ids j.id ≡ true = rw (at, c) in ground (arith, c', e)
  | inr e ↦ ground (arith, fence-lease owner until_at ids x js (ground arith) c)
]

All-jobs :
    (owner : ℕ) (P : Job → Type 0) (rows : List JobRow)
    → All (λ x. P (job_of owner x)) rows
    → All P (map (job_of owner) rows)
All-jobs owner P [] h = tt
All-jobs owner P (x ∷ xs) h = (h.0, All-jobs owner P xs h.1)

module _ (now : Time) (kind : JobType) (limit : ℤ) (locked : JobRow → Bool) (s : Store) where
  All-claimed :
      (P : JobRow → Type 0)
      → All P (keep (λ j. claimable now kind s.repos j && not (locked j)) s.jobs)
      → All P (select_claims now kind limit locked s)
  unfolding select_claims
  All-claimed P h =
      let takes = λ (j : JobRow). claimable now kind s.repos j && not (locked j) in
      All-take P (at_least_one limit) (sort_stable claimed_before (keep takes s.jobs))
        (All-sort_stable claimed_before P (keep takes s.jobs) h)

  length-claimed : length (select_claims now kind limit locked s) ≤ at_least_one limit
  unfolding select_claims
  length-claimed =
      let sorted =
        sort_stable claimed_before
          (keep (λ j. claimable now kind s.repos j && not (locked j)) s.jobs) in
      omega (arith, length-take (at_least_one limit) sorted)

-- A claim hands out at most max(1, limit) jobs. Each was claimable (pending, of the type asked for,
-- due, and of an eligible repository) and not locked by another transaction, and each comes with a
-- lease that holds in the resulting table, so that a write with it is not refused.
pub claim-fence :
    (now : Time) (kind : JobType) (limit : ℤ) (owner lease_time : ℕ) (locked : JobRow → Bool)
    (s : Store)
    → let claimed = select_claims now kind limit locked s in
      let (t, jobs) = claim_jobs now kind limit owner lease_time locked s in
      (length jobs ≤ at_least_one limit)
      × (All (Passes (λ j. claimable now kind s.repos j && not (locked j))) claimed
          × All (λ (job : Job). any (fence job) t.jobs ≡ true) jobs)
unfolding claim_jobs
claim-fence now kind limit owner lease_time locked s =
    let takes = λ (j : JobRow). claimable now kind s.repos j && not (locked j) in
    let claimed = select_claims now kind limit locked s in
    let updated =
      update_rows (λ j. contains (row_ids claimed) j.id) (lease owner (now + lease_time)) s.jobs in
    let holds = λ (job : Job). any (fence job) updated ≡ true in
    (
      omega (arith, length-map (job_of owner) claimed, length-claimed now kind limit locked s),
      (
        All-claimed now kind limit locked s (Passes takes) (All-keep_test takes s.jobs),
        All-jobs owner holds claimed (
            All-both (HasKey s.jobs) (HasKey claimed) (λ x. holds (job_of owner x))
              (λ x k c. fence-lease owner (now + lease_time) (row_ids claimed) x s.jobs k c) claimed
              (All-claimed now kind limit locked s (HasKey s.jobs)
                (All-keep (HasKey s.jobs) takes s.jobs (own_keys s.jobs)))
              (own_keys claimed)),
      ),
    )
