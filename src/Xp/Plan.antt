-- ===== src/Xp/Plan.antt =====
-- The function Plan of backend/internal/xp/xp.go: the awards that pull requests earn. Its three loops
-- stand in the modules `Merges` and `Opened`, what the ledger says in `Ledger`.
pub mod Ledger
pub mod Merges
pub mod Opened
pub mod DailyCap
pub mod Amounts
pub mod Openings
pub mod Rerun
use skill_issues.Prelude.{List, ◌++◌, map}
use skill_issues.Prelude.Time.{Time}
use skill_issues.Xp.{Rules, Pr, Award, Paid}
use skill_issues.Xp.Plan.Merges.{merge_awards}
use skill_issues.Xp.Plan.Opened.{opening_awards, reversal_awards}

unfoldable pub plan : Rules → Time → List Pr → List Paid → List Award
unfolding merge_awards opening_awards reversal_awards
plan r joined prs paid =
    merge_awards r joined prs paid ++ (opening_awards r joined prs paid ++ reversal_awards prs paid)

-- A planned award as the row that the ledger then holds, and the ledger with it.
abbrev pub as_paid : Award → Paid
as_paid a = record {
  source = a.source;
  pr_id = a.pr_id;
  amount = a.amount;
  detail = a.detail;
  earned_at = a.earned_at;
}

abbrev pub record_awards : List Paid → List Award → List Paid
record_awards paid awards = paid ++ map as_paid awards
