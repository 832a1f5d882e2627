-- ===== src/Ingest/Queue/Claims.antt =====
-- Which rows a claim takes (`ClaimJobs`, backend/internal/ingest/queue.go).
use skill_issues.Prelude.{
  ℕ, ◌+◌, ◌≡◌, refl, sym, Bool, true, false, ◌&&◌, not, List, [], ◌∷◌, ◌==◌, keep, contains,
  AreDistinct, All, All-both, All-map, All-take, All-keep, arith, Bool-cases, inl, inr, if_cases,
}
use skill_issues.Prelude.Int.{ℤ}
use skill_issues.Prelude.Sort.{sort_stable, All-sort_stable}
use skill_issues.Prelude.Time.{Time}
use skill_issues.Ingest.Queue.{
  JobType, JobRow, Store, at_least_one, claimable, claimed_before, row_ids, lease, select_claims,
  claim_jobs,
}
use skill_issues.Ingest.Queue.Writes.{is_active}
use skill_issues.Ingest.Queue.OneActive.{IsSound, IsTame, update-IsSound}

module _ (Q : Type 0) where
  -- A number that no row has as its key is not the key of one.
  absent :
      (a : ℕ) (jobs : List JobRow)
      → contains (row_ids jobs) a ≡ false
      → All (λ (x : JobRow). x.id ≡ a → Q) jobs
  absent a [] h = tt
  absent a (x ∷ xs) h = (λ e. ground arith, absent a xs (ground arith))

  found :
      (a : ℕ) (jobs : List JobRow)
      → All (λ (x : JobRow). x.id ≡ a → Q) jobs
      → contains (row_ids jobs) a ≡ true
      → Q
  found a [] h m = ground arith
  found a (x ∷ xs) h m = elim (Bool-cases (x.id == a)) [
    | inl e ↦ h.0 (ground arith)
    | inr e ↦ found a xs h.1 (ground arith)
  ]

module _ (p : JobRow → Bool) where
  abbrev HasKeyed : List JobRow → JobRow → Type 0
  HasKeyed kept j = All (λ (x : JobRow). x.id ≡ j.id → p j ≡ true) kept

  keyed_head :
      (y : JobRow) (ys : List JobRow)
      → contains (row_ids ys) y.id ≡ false
      → HasKeyed (keep p (y ∷ ys)) y
  keyed_head y ys d =
      if_cases (λ kept. HasKeyed kept y) (p y) (y ∷ keep p ys) (keep p ys)
        (λ e.
          (λ _. e, All-keep (λ x. x.id ≡ y.id → p y ≡ true) p ys (absent (p y ≡ true) y.id ys d)))
        (λ _. All-keep (λ x. x.id ≡ y.id → p y ≡ true) p ys (absent (p y ≡ true) y.id ys d))

  keyed_tail :
      (y j : JobRow) (ys : List JobRow)
      → (j.id ≡ y.id → false ≡ true)
      → HasKeyed (keep p ys) j
      → HasKeyed (keep p (y ∷ ys)) j
  keyed_tail y j ys other h =
      if_cases (λ kept. HasKeyed kept j) (p y) (y ∷ keep p ys) (keep p ys)
        (λ _. (λ e. grind (arith, other (sym e)), h)) (λ _. h)

  -- A row whose key is that of a row that passes the test passes it, since keys are distinct.
  keyed : (jobs : List JobRow) → AreDistinct (row_ids jobs) → All (HasKeyed (keep p jobs)) jobs
  keyed [] d = tt
  keyed (y ∷ ys) d = (
    keyed_head y ys d.0,
    All-both (λ (j : JobRow). j.id ≡ y.id → false ≡ true) (HasKeyed (keep p ys))
        (HasKeyed (keep p (y ∷ ys))) (λ j. keyed_tail y j ys) ys (absent (false ≡ true) y.id ys d.0)
        (keyed ys d.1),
  )

module _ (now : Time) (kind : JobType) (limit : ℤ) (locked : JobRow → Bool) (s : Store) where
  abbrev takes : JobRow → Bool
  takes j = claimable now kind s.repos j && not (locked j)

  -- Every row that a claim updates passed the test of its query.
  pub claimed-takes :
      AreDistinct (row_ids s.jobs)
      → All
          (λ (j : JobRow).
            contains (row_ids (select_claims now kind limit locked s)) j.id ≡ true → takes j ≡ true)
          s.jobs
  unfolding select_claims
  claimed-takes d =
      All-map (HasKeyed takes (keep takes s.jobs))
        (λ (j : JobRow).
          contains (row_ids (select_claims now kind limit locked s)) j.id ≡ true → takes j ≡ true)
        (λ j h. found (takes j ≡ true) j.id (select_claims now kind limit locked s) (
          All-take (λ x. x.id ≡ j.id → takes j ≡ true) (at_least_one limit)
            (sort_stable claimed_before (keep takes s.jobs))
            (All-sort_stable claimed_before (λ x. x.id ≡ j.id → takes j ≡ true) (keep takes s.jobs)
              h)))
        s.jobs (keyed takes s.jobs d)

  takes-active : (j : JobRow) → takes j ≡ true → is_active j ≡ true
  takes-active j e = ground arith

  claim-IsTame :
      (owner : ℕ) (until_at : Time) (j : JobRow)
      → (contains (row_ids (select_claims now kind limit locked s)) j.id ≡ true → takes j ≡ true)
      → IsTame
          (λ j. contains (row_ids (select_claims now kind limit locked s)) j.id)
          (lease owner until_at)
          j
  claim-IsTame owner until_at j h = record {
    same_id = refl;
    same_repo = refl;
    stays = λ m _. takes-active j (h m);
  }

  pub claim-IsSound :
      (owner lease_time : ℕ)
      → IsSound s
      → IsSound (claim_jobs now kind limit owner lease_time locked s).0
  unfolding claim_jobs
  claim-IsSound owner lease_time h =
      let matches =
        λ (j : JobRow). contains (row_ids (select_claims now kind limit locked s)) j.id in
      let set = lease owner (now + lease_time) in
      update-IsSound matches set s s.repos
        (All-map (λ j. matches j ≡ true → takes j ≡ true) (IsTame matches set)
          (λ j. claim-IsTame owner (now + lease_time) j) s.jobs (claimed-takes h.distinct))
        h
