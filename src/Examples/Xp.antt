-- ===== src/Examples/Xp.antt =====
-- A person's pull requests planned and levelled (backend/internal/xp/xp.go), with the registry's
-- default rules.
use skill_issues.Prelude.{
  ℕ, ◌≤◌, ◌<◌, ◌*◌, suc, ◌≡◌, refl, true, none, some, List, [], ◌∷◌, arith, ◌⊎◌, max, All,
}
use skill_issues.Prelude.Int.{◌+ℤ◌, ℤ, pos, negsuc, ◌≤ℤ◌}
use skill_issues.Prelude.Text.{ascii}
use skill_issues.Prelude.Time.{Time, day_ns, week_of}
use skill_issues.Xp.{
  Rules, Issue, Pr, PrState, Paid, Award, is_closed, is_merged, opened, beginner, advanced, success,
}
use skill_issues.Xp.Level.{level_of, level_of_brackets, threshold}
use skill_issues.Xp.Plan.{plan, record_awards}
use skill_issues.Xp.Plan.Ledger.{repo_day, opened_week}
use skill_issues.Xp.Plan.Merges.{zero_detail, merge_awards}
use skill_issues.Xp.Plan.DailyCap.{plan-daily_cap}
use skill_issues.Xp.Plan.Amounts.{
  IsAccounted, merge_awards-IsAccounted, first_bonuses, first_bonuses-merge_awards,
}
use skill_issues.Xp.Plan.Openings.{plan-weekly_cap}
use skill_issues.Xp.Plan.Rerun.{plan-rerun}

abbrev pub rules : Rules
rules = record {
  base_beginner = 75;
  base_intermediate = 140;
  base_advanced = 250;
  base_unclassified = 100;
  base_unlinked = 50;
  first_merge_repo_bonus = 15;
  backlog_bonus = 50;
  backlog_days = 180;
  ci_bonus = 15;
  approval_bonus = 10;
  approval_bonus_no_ci = 20;
  clean_merge_bonus = 5;
  clean_merge_bonus_no_ci = 10;
  backfill_percent = 50;
  repo_daily_cap = 400;
  opened_reward = 5;
  opened_weekly_cap = 3;
  level_step = 100;
  quest_reward = 50;
  path_reward = 200;
}

abbrev hard_issue : Issue
hard_issue = record {
  id = 9;
  difficulty = advanced;
  created_at = some (700000 * day_ns);
  labels = ascii "Docs" ∷ [];
  claimed_by_author = true;
}

-- Two merges of one day in repository 4, and a pull request that closed unmerged.
abbrev first_pr : Pr
first_pr = record {
  id = 1;
  repository_id = 4;
  language = ascii "Go";
  state = is_merged;
  created_at = 738940 * day_ns;
  merged_at = some (738945 * day_ns);
  checks = some success;
  approvals = 1;
  changes_requested = 0;
  no_xp_reason = none;
  issues = hard_issue ∷ [];
}

abbrev second_pr : Pr
second_pr = record first_pr { id = 2; issues = [] }

abbrev closed_pr : Pr
closed_pr = record first_pr { id = 3; state = is_closed; merged_at = none }

abbrev prs : List Pr
prs = first_pr ∷ second_pr ∷ closed_pr ∷ []

abbrev joined : Time
joined = 738000 * day_ns

-- The opening of the pull request that closed has been paid.
abbrev ledger : List Paid
ledger =
    record {
      source = opened;
      pr_id = 3;
      amount = pos 5;
      detail = record zero_detail { issue_id = 8 };
      earned_at = 738940 * day_ns;
    }
    ∷ []

abbrev amounts : List Award → List ℤ
amounts [] = []
amounts (a ∷ rest) = a.amount ∷ amounts rest

-- 250 + 15 + 50 + 15 + 10 + 5, then the rest of the cap; an opening; the reversal.
planned_amounts : amounts (plan rules joined prs ledger) ≡ pos 345 ∷ pos 55 ∷ pos 5 ∷ negsuc 4 ∷ []
unfolding plan ◌+ℤ◌
planned_amounts = refl

plan-daily_cap_example :
    (repo_day (record_awards ledger (plan rules joined prs ledger)) 4 738945 ≤ℤ pos 400)
    ⊎ (repo_day (record_awards ledger (plan rules joined prs ledger)) 4 738945
        ≡ repo_day ledger 4 738945)
plan-daily_cap_example = plan-daily_cap rules joined prs ledger 4 738945 (omega arith)

abbrev states : ℕ → PrState
states (suc (suc (suc n))) = is_closed
states n = is_merged

plan-rerun_example :
    plan rules joined prs (record_awards ledger (plan rules joined prs ledger)) ≡ []
plan-rerun_example =
    plan-rerun rules joined prs ledger states (refl, (refl, (refl, tt))) (omega arith)

merge_awards-IsAccounted_example : All (IsAccounted rules) (merge_awards rules joined prs ledger)
merge_awards-IsAccounted_example = merge_awards-IsAccounted rules joined prs ledger

first_bonuses-merge_awards_example : first_bonuses (merge_awards rules joined prs ledger) 4 ≤ 15
first_bonuses-merge_awards_example = first_bonuses-merge_awards rules joined prs ledger 4

abbrev easy_issue : Issue
easy_issue = record hard_issue { id = 10; difficulty = beginner }

plan-weekly_cap_example :
    opened_week (record_awards ledger (plan rules joined prs ledger)) (week_of (738940 * day_ns))
    ≤ max 3 (opened_week ledger (week_of (738940 * day_ns)))
plan-weekly_cap_example = plan-weekly_cap rules joined prs ledger (week_of (738940 * day_ns))

level_of_brackets_example :
    let l = level_of (λ t s. 5) (pos 350) (pos 100) in
    (1 ≤ l.level)
    × (l.start ≤ 350)
    × (350 < l.next)
    × (l.start ≡ threshold l.level 100)
    × (l.next ≡ threshold (suc l.level) 100)
level_of_brackets_example = level_of_brackets (λ t s. 5) (pos 350) (pos 100)
