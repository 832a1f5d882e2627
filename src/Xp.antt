-- ===== src/Xp.antt =====
-- backend/internal/xp: the ledger's types, and the modules that plan awards and read the ledger.
-- Every xp.* setting is bounded below by 0 (settings/registry.go), so the rules are natural
-- numbers; only a ledger amount can be negative.
pub mod Level
pub mod Plan
pub mod Quests
pub mod Summary
use skill_issues.Prelude.{ℕ, Bool, Option, List}
use skill_issues.Prelude.Int.{ℤ}
use skill_issues.Prelude.Text.{Text}
use skill_issues.Prelude.Time.{Time}

pub data Source : Type 0 where
  merged backfill opened opened_reversed quest path : Source

pub data Difficulty : Type 0 where
  beginner intermediate advanced unclassified : Difficulty

pub record Rules : Type 0 where
  pub base_beginner : ℕ
  pub base_intermediate : ℕ
  pub base_advanced : ℕ
  pub base_unclassified : ℕ
  pub base_unlinked : ℕ
  pub first_merge_repo_bonus : ℕ
  pub backlog_bonus : ℕ
  pub backlog_days : ℕ
  pub ci_bonus : ℕ
  pub approval_bonus : ℕ
  pub approval_bonus_no_ci : ℕ
  pub clean_merge_bonus : ℕ
  pub clean_merge_bonus_no_ci : ℕ
  pub backfill_percent : ℕ
  pub repo_daily_cap : ℕ
  pub opened_reward : ℕ
  pub opened_weekly_cap : ℕ
  pub level_step : ℕ
  pub quest_reward : ℕ
  pub path_reward : ℕ

pub record Issue : Type 0 where
  pub id : ℕ
  pub difficulty : Difficulty
  pub created_at : Option Time
  pub labels : List Text
  pub claimed_by_author : Bool

pub data PrState : Type 0 where
  is_open is_closed is_merged : PrState

-- The state of a pull request's checks; a repository with no checks has none.
pub data Checks : Type 0 where
  success not_success : Checks

pub record Pr : Type 0 where
  pub id : ℕ
  pub repository_id : ℕ
  pub language : Text
  pub state : PrState
  pub created_at : Time
  pub merged_at : Option Time
  pub checks : Option Checks
  pub approvals : ℕ
  pub changes_requested : ℕ
  pub no_xp_reason : Option Text
  pub issues : List Issue

-- A field that the source leaves at its zero value is 0, [] or false; `difficulty` is none when
-- the pull request closes no catalog issue.
pub record Detail : Type 0 where
  pub base : ℕ
  pub difficulty : Option Difficulty
  pub issue_id : ℕ
  pub first_in_repo : ℕ
  pub backlog : ℕ
  pub ci : ℕ
  pub approval : ℕ
  pub clean_merge : ℕ
  pub percent : ℕ
  pub capped : ℕ
  pub repository_id : ℕ
  pub language : Text
  pub docs : Bool
  pub claimed : Bool

pub record Award : Type 0 where
  pub source : Source
  pub pr_id : ℕ
  pub key : Text
  pub amount : ℤ
  pub detail : Detail
  pub earned_at : Time

pub record Paid : Type 0 where
  pub source : Source
  pub pr_id : ℕ
  pub amount : ℤ
  pub detail : Detail
  pub earned_at : Time

abbrev pub source_eq : Source → Source → Bool
source_eq merged merged = Bool.true
source_eq backfill backfill = Bool.true
source_eq opened opened = Bool.true
source_eq opened_reversed opened_reversed = Bool.true
source_eq quest quest = Bool.true
source_eq path path = Bool.true
source_eq _ _ = Bool.false
