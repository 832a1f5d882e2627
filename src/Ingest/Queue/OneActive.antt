-- ===== src/Ingest/Queue/OneActive.antt =====
-- One active job for each repository (backend/internal/ingest/queue.go): what each statement keeps of
-- the table of jobs.
use skill_issues.Prelude.{
  ℕ, suc, ◌+◌, ◌≤◌, ◌<◌, ◌≡◌, refl, sym, ap, subst, Bool, true, false, ◌&&◌, List, [], ◌∷◌, ◌++◌,
  ◌==◌, if◌then◌else◌, contains-append, AreDistinct, All, All-append, arith, if_cases,
}
use skill_issues.Ingest.Queue.{Repo, JobRow, Store, update_rows, row_ids}
use skill_issues.Ingest.Queue.Writes.{is_active, has_active, add_job, insert_job}

abbrev pub active_count : ℕ → List JobRow → ℕ
active_count repo [] = 0
active_count repo (j ∷ js) =
    let rest = active_count repo js in
    if j.repository_id == repo && is_active j then suc rest else rest

pub record IsSound (s : Store) : Type 0 where
  pub fresh : All (λ i. i < s.next_id) (row_ids s.jobs)
  pub distinct : AreDistinct (row_ids s.jobs)
  pub single : (repo : ℕ) → active_count repo s.jobs ≤ 1

-- An update that keeps a row's key and repository, and makes no inactive row active.
pub record IsTame (matches : JobRow → Bool) (set : JobRow → JobRow) (j : JobRow) : Type 0 where
  pub same_id : (set j).id ≡ j.id
  pub same_repo : (set j).repository_id ≡ j.repository_id
  pub stays : matches j ≡ true → is_active (set j) ≡ true → is_active j ≡ true

row_ids-update :
    (matches : JobRow → Bool) (set : JobRow → JobRow) (jobs : List JobRow)
    → All (IsTame matches set) jobs
    → row_ids (update_rows matches set jobs) ≡ row_ids jobs
row_ids-update matches set [] h = refl
row_ids-update matches set (j ∷ js) h =
    grind (arith, h.0.same_id, row_ids-update matches set js h.1)

count-update :
    (matches : JobRow → Bool) (set : JobRow → JobRow) (repo : ℕ) (jobs : List JobRow)
    → All (IsTame matches set) jobs
    → active_count repo (update_rows matches set jobs) ≤ active_count repo jobs
count-update matches set repo [] h = omega arith
count-update matches set repo (j ∷ js) h =
    let (tame, rest) = h in
    ground (arith, tame.same_repo, tame.stays, count-update matches set repo js rest)

pub update-IsSound :
    (matches : JobRow → Bool) (set : JobRow → JobRow) (s : Store) (repos : List Repo)
    → All (IsTame matches set) s.jobs
    → IsSound s
    → IsSound (record s { repos = repos; jobs = update_rows matches set s.jobs })
update-IsSound matches set s repos tame h =
    let e = row_ids-update matches set s.jobs tame in
    record {
      fresh = subst (All (λ i. i < s.next_id)) (sym e) h.fresh;
      distinct = subst AreDistinct (sym e) h.distinct;
      single = λ repo. omega (arith, count-update matches set repo s.jobs tame, h.single repo);
    }

active_count-none :
    (repo : ℕ) (jobs : List JobRow) → has_active repo jobs ≡ false → active_count repo jobs ≡ 0
active_count-none repo [] h = refl
active_count-none repo (j ∷ js) h = ground (arith, active_count-none repo js)

active_count-append :
    (repo : ℕ) (xs ys : List JobRow)
    → active_count repo (xs ++ ys) ≡ active_count repo xs + active_count repo ys
active_count-append repo [] ys = omega arith
active_count-append repo (x ∷ xs) ys = ground (arith, active_count-append repo xs ys)

row_ids-append : (xs ys : List JobRow) → row_ids (xs ++ ys) ≡ row_ids xs ++ row_ids ys
row_ids-append [] ys = refl
row_ids-append (x ∷ xs) ys = ap (λ r. x.id ∷ r) (row_ids-append xs ys)

fresh_next : (n : ℕ) (ids : List ℕ) → All (λ i. i < n) ids → All (λ i. i < suc n) ids
fresh_next n [] h = tt
fresh_next n (i ∷ ids) h = (omega (arith, h.0), fresh_next n ids h.1)

distinct-append :
    (n : ℕ) (ids : List ℕ) → All (λ i. i < n) ids → AreDistinct ids → AreDistinct (ids ++ (n ∷ []))
distinct-append n [] f d = (refl, tt)
distinct-append n (i ∷ ids) f d =
    (ground (arith, f.0, d.0, contains-append ids (n ∷ []) i), distinct-append n ids f.1 d.1)

pub add-IsSound :
    (row : JobRow) (s : Store)
    → has_active row.repository_id s.jobs ≡ false
    → IsSound s
    → IsSound (add_job row s)
add-IsSound row s free h =
    let new = record row { id = s.next_id } in
    let e = row_ids-append s.jobs (new ∷ []) in
    record {
      fresh = subst (All (λ i. i < suc s.next_id)) (sym e) (
          All-append (λ i. i < suc s.next_id) (row_ids s.jobs) (s.next_id ∷ [])
            (fresh_next s.next_id (row_ids s.jobs) h.fresh) (omega arith, tt));
      distinct =
          subst AreDistinct (sym e) (distinct-append s.next_id (row_ids s.jobs) h.fresh h.distinct);
      single = λ repo. ground (
        arith,
        active_count-append repo s.jobs (new ∷ []),
        h.single repo,
        active_count-none row.repository_id s.jobs free,
      );
    }

pub insert-IsSound : (row : JobRow) (s : Store) → IsSound s → IsSound (insert_job row s)
unfolding insert_job
insert-IsSound row s h =
    if_cases IsSound (has_active row.repository_id s.jobs) s (add_job row s) (λ _. h)
      (λ free. add-IsSound row s free h)
