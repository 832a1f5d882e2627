-- ===== src/Ingest/Eligibility.antt =====
-- `Eligible` (backend/internal/ingest/eligibility.go): which repositories the crawler takes. The age
-- of a push is in nanoseconds, as `time.Since` answers it (0
-- for one in the future).
pub mod Rule
pub mod Recompute
use skill_issues.Prelude.{
  ℕ, ◌*◌, Bool, true, false, Option, none, some, List, [], ◌∷◌, ◌++◌, ltb, leb, if◌then◌else◌,
}
use skill_issues.Prelude.Int.{ℤ, pos, negsuc}
use skill_issues.Prelude.Text.{Text, is_empty}
use skill_issues.Prelude.Time.{day_ns}

pub record RepoFacts : Type 0 where
  pub is_fork : Bool
  pub is_archived : Bool
  pub issue_count : ℤ
  pub primary_language : Option Text
  pub pushed_ago : Option ℕ
  pub stars : ℕ

-- The source joins the reasons' names with `;`.
pub data Reason : Type 0 where
  fork archived no_issues no_primary_language stale below_star_floor : Reason

abbrev pub reason_if : Bool → Reason → List Reason
reason_if b r = if b then r ∷ [] else []

abbrev pub has_no_issues : ℤ → Bool
has_no_issues (pos n) = leb n 0
has_no_issues (negsuc n) = true

abbrev pub has_no_language : Option Text → Bool
has_no_language none = true
has_no_language (some l) = is_empty l

abbrev pub is_stale : ℕ → Option ℕ → Bool
is_stale days none = true
is_stale days (some ago) = ltb (days * day_ns) ago

unfoldable pub reasons : RepoFacts → ℕ → ℕ → List Reason
reasons f min_stars pushed_within_days =
    reason_if f.is_fork fork
    ++ (reason_if f.is_archived archived
        ++ (reason_if (has_no_issues f.issue_count) no_issues
            ++ (reason_if (has_no_language f.primary_language) no_primary_language
                ++ (reason_if (is_stale pushed_within_days f.pushed_ago) stale
                    ++ reason_if (ltb f.stars min_stars) below_star_floor))))

abbrev pub no_reason : List Reason → Bool
no_reason [] = true
no_reason (r ∷ rs) = false

unfoldable pub eligible : RepoFacts → ℕ → ℕ → Bool × List Reason
unfolding reasons
eligible f min_stars pushed_within_days =
    let rs = reasons f min_stars pushed_within_days in (no_reason rs, rs)
