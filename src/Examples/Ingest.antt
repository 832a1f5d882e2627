-- ===== src/Examples/Ingest.antt =====
-- Runs of the shared budget: 12,500 points an hour and a reserve of 30 percent.
use skill_issues.Prelude.{ℕ, List, ◌≡◌, refl, none, some, [], ◌∷◌, true, false, arith}
use skill_issues.Prelude.Text.{Text, ascii}
use skill_issues.Ingest.Budget.{
  crawler, interactive, Row, RateLimit, can_proceed, update_budget, mark_secondary_limit,
}
use skill_issues.Ingest.Budget.Lanes.{can_proceed-crawler, can_proceed-mark_secondary_limit}
use skill_issues.Ingest.Budget.Telemetry.{can_proceed-update_budget}
use skill_issues.Ingest.Eligibility.{eligible, RepoFacts, stale, below_star_floor}
use skill_issues.Ingest.Eligibility.Rule.{IsEligible, eligible-IsEligible}
use skill_issues.Ingest.Eligibility.{reasons}
use skill_issues.Ingest.Eligibility.Recompute.{
  StoredRepo, judged_reasons, judge_row, judge_row-eligible,
}
use skill_issues.Prelude.Text.{to_lower}
use skill_issues.Ingest.Sanitize.{sanitize_slice, sanitize_slice-clean}
use skill_issues.Prelude.{contains, All, ◌↔◌}
use skill_issues.Prelude.Int.{pos}
use skill_issues.Ingest.Ladder.{Fetched, resource_limit, batch_ladder, has_ended, batch_ladder_ends}

abbrev installation : Text
installation = ascii "installation"

abbrev telemetry : ℕ → RateLimit
telemetry left = record { limit = 12500; left = left; resets = some 1000 }

abbrev rows : List Row
rows =
    record {
      identity = installation;
      lane = crawler;
      rate_limit = some 12500;
      remaining = some 3850;
      reset_at = some 1000;
      secondary_until = none;
    }
    ∷ []

crawler_stops : can_proceed 900 crawler installation 101 30 rows ≡ false
unfolding can_proceed
crawler_stops = refl

can_proceed-crawler_example : can_proceed 900 interactive installation 50 30 rows ≡ true
unfolding can_proceed
can_proceed-crawler_example = can_proceed-crawler 900 installation 50 100 30 rows (omega arith) refl

can_proceed-mark_secondary_limit_example :
    can_proceed 900 interactive installation 100 30
      (mark_secondary_limit crawler installation 960 rows)
    ≡ false
can_proceed-mark_secondary_limit_example =
    can_proceed-mark_secondary_limit 900 960 crawler interactive installation 100 30 rows
      (omega arith)

can_proceed-update_budget_example :
    can_proceed 900 crawler installation 100 30
      (update_budget interactive installation (telemetry 99) rows)
    ≡ false
can_proceed-update_budget_example =
    can_proceed-update_budget 900 1000 interactive crawler installation 100 30 (telemetry 99) rows
      refl refl (omega arith) (omega arith)

abbrev repo : RepoFacts
repo = record {
  is_fork = false;
  is_archived = false;
  issue_count = pos 4;
  primary_language = some (ascii "Go");
  pushed_ago = some 1;
  stars = 20;
}

taken : (eligible repo 10 180).0 ≡ true
unfolding eligible
taken = refl

refused_for :
    (eligible (record repo { pushed_ago = none; stars = 9 }) 10 180).1
    ≡ stale ∷ below_star_floor ∷ []
unfolding eligible
refused_for = refl

eligible-IsEligible_example : ((eligible repo 10 180).0 ≡ true) ↔ IsEligible repo 10 180
eligible-IsEligible_example = eligible-IsEligible repo 10 180

abbrev texts : List Text
texts = (97 ∷ 0 ∷ 98 ∷ []) ∷ (99 ∷ []) ∷ []

stored : sanitize_slice texts ≡ ascii "ab" ∷ ascii "c" ∷ []
unfolding sanitize_slice
stored = refl

sanitize_slice-clean_example :
    All (λ s. contains s 0 ≡ false) (sanitize_slice texts)
    × (sanitize_slice (sanitize_slice texts) ≡ sanitize_slice texts)
sanitize_slice-clean_example = sanitize_slice-clean texts

-- GitHub refuses every size.
abbrev refuses : ℕ → ℕ → Fetched
refuses size closed_size = resource_limit

batch_ladder_ends_example : has_ended (batch_ladder refuses 151 100 50) ≡ true
batch_ladder_ends_example = batch_ladder_ends refuses 151 100 50 (omega arith)

-- An excluded repository without a language, crawled until now, and one that GitHub does not know.
abbrev stored_tool : StoredRepo
stored_tool = record {
  id = 1;
  full_name = ascii "Acme/Tool";
  is_archived = false;
  issue_count = none;
  language = none;
  pushed_at = some 5;
  stars = some 50;
  is_eligible = true;
  eligibility_reason = some [];
}

excluded_row : judge_row 10 10 180 (ascii "acme/tool" ∷ []) stored_tool ≡ record stored_tool {
  is_eligible = false;
  eligibility_reason = some (ascii "excluded;no_primary_language");
}
unfolding judge_row judged_reasons to_lower
excluded_row = refl

final_row :
    (judge_row 10 10 180 [] (record stored_tool {
      is_eligible = false;
      eligibility_reason = some (ascii "not_found");
    })).is_eligible
    ≡ false
unfolding judge_row
final_row = refl

judge_row-eligible_example :
    ((judge_row 10 10 180 [] stored_tool).is_eligible ≡ false)
    × ((judge_row 10 10 180 [] stored_tool).eligibility_reason ≡ some (ascii "no_primary_language"))
unfolding eligible reasons
judge_row-eligible_example = judge_row-eligible 10 10 180 [] stored_tool
