-- ===== src/Xp/Plan/Ledger.antt =====
-- The maps that Plan (backend/internal/xp/xp.go) fills from the ledger, as functions of it.
use skill_issues.Prelude.{
  ℕ, suc, Bool, true, false, not, ◌&&◌, Option, none, some, List, [], ◌∷◌, ◌==◌, if◌then◌else◌, any,
}
use skill_issues.Prelude.Int.{ℤ, pos, ◌+ℤ◌}
use skill_issues.Prelude.Time.{day_of, week_of}
use skill_issues.Xp.{Source, merged, backfill, opened, source_eq, Paid}

abbrev pub is_none {ℓ} : {A : Type ℓ} → Option A → Bool
is_none none = true
is_none (some a) = false

-- `done[pk{source, id}]`: a later row of the ledger replaces an earlier one.
abbrev pub find_paid : List Paid → Source → ℕ → Option Paid
find_paid [] source id = none
find_paid (p ∷ ps) source id = elim (find_paid ps source id) [
  | some q ↦ some q
  | none ↦ if source_eq p.source source && p.pr_id == id then some p else none
]

abbrev pub is_paid : List Paid → Source → ℕ → Bool
is_paid paid source id = any (λ (p : Paid). source_eq p.source source && p.pr_id == id) paid

abbrev pub is_merge : Source → Bool
is_merge merged = true
is_merge backfill = true
is_merge _ = false

-- `mergedRepos`, `repoDay`, `openedWeek` and `openedIssues` as the ledger leaves them.
abbrev pub merged_repos : List Paid → List ℕ
merged_repos [] = []
merged_repos (p ∷ ps) =
    if is_merge p.source then p.detail.repository_id ∷ merged_repos ps else merged_repos ps

abbrev pub repo_day : List Paid → ℕ → ℕ → ℤ
repo_day [] repo day = pos 0
repo_day (p ∷ ps) repo day =
    if is_merge p.source && (p.detail.repository_id == repo && day_of p.earned_at == day)
    then p.amount +ℤ repo_day ps repo day
    else repo_day ps repo day

abbrev pub opened_week : List Paid → ℕ → ℕ
opened_week [] week = 0
opened_week (p ∷ ps) week =
    if source_eq p.source opened && week_of p.earned_at == week
    then suc (opened_week ps week)
    else opened_week ps week

abbrev pub opened_issues : List Paid → List ℕ
opened_issues [] = []
opened_issues (p ∷ ps) =
    if source_eq p.source opened && not (p.detail.issue_id == 0)
    then p.detail.issue_id ∷ opened_issues ps
    else opened_issues ps
