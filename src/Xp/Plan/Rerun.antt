-- ===== src/Xp/Plan/Rerun.antt =====
-- A second run of Plan (backend/internal/xp/xp.go) over the ledger that holds the first one's
-- awards. Each child has one of the three loops.
mod Rows
mod MergesAgain
mod OpeningsAgain
mod ReversalsAgain
use mathlib.Core.List.{map-append}
use Rows.{is_paid-append, contains-opened_issues-append}
use MergesAgain.{IsMergePaid, merge_awards-IsMergePaid, payable_merges-none, merge_awards-none}
use OpeningsAgain.{Covers, with_rows, HasIds, opening_awards-again}
use ReversalsAgain.{
  Agrees, Undone, merge_awards-not_opened, opening_awards-not_opened, reversal_awards-not_opened,
  reversal_awards-Undone, reversal_awards-again,
}
use skill_issues.Prelude.{
  ℕ, ◌+◌, ◌≤◌, ◌≡◌, refl, true, false, ◌||◌, List, [], ◌∷◌, ◌++◌, map, arith, All, All-map,
  contains, contains-append, inl, inr, ap, ◌∙◌,
}
use skill_issues.Prelude.Time.{Time}
use skill_issues.Xp.{
  Rules, PrState, Pr, Paid, Award, Source, merged, backfill, opened, opened_reversed,
}
use skill_issues.Xp.Plan.{plan, as_paid, record_awards}
use skill_issues.Xp.Plan.Ledger.{is_paid, find_paid, opened_week, opened_issues}
use skill_issues.Xp.Plan.Merges.{Merge, merge_awards, state_is_closed, award_merges, payable_merges}
use skill_issues.Xp.Plan.Opened.{opening_awards, reversal_awards, opening_state}
use skill_issues.Xp.Plan.Openings.{opened_week-append}

plan_lem :
    (r : Rules) (joined : Time) (prs : List Pr) (paid : List Paid)
    → plan r joined prs paid
      ≡ merge_awards r joined prs paid
        ++ (opening_awards r joined prs paid ++ reversal_awards prs paid)
unfolding plan
plan_lem r joined prs paid = refl

module _ (r : Rules) (joined : Time) (prs : List Pr) (paid : List Paid) (states : ℕ → PrState)
    (agrees : All (Agrees states) prs) (ids : All HasIds prs) where
  abbrev merge_rows : List Paid
  merge_rows = map as_paid (merge_awards r joined prs paid)

  abbrev opening_rows : List Paid
  opening_rows = map as_paid (opening_awards r joined prs paid)

  abbrev reversal_rows : List Paid
  reversal_rows = map as_paid (reversal_awards prs paid)

  rows : List Paid
  rows = merge_rows ++ (opening_rows ++ reversal_rows)

  map-plan : map as_paid (plan r joined prs paid) ≡ rows
  unfolding rows
  map-plan = rw (plan_lem r joined prs paid) (rw (map-append, map-append))

  is_paid-rows :
      (s : Source) (id : ℕ)
      → is_paid rows s id
        ≡ (is_paid merge_rows s id || (is_paid opening_rows s id || is_paid reversal_rows s id))
  unfolding rows
  is_paid-rows s id =
      is_paid-append merge_rows (opening_rows ++ reversal_rows) s id
      ∙ ap (λ b. is_paid merge_rows s id || b) (is_paid-append opening_rows reversal_rows s id)

  is_paid-all :
      (s : Source) (id : ℕ) → is_paid (paid ++ rows) s id ≡ (is_paid paid s id || is_paid rows s id)
  is_paid-all s id = is_paid-append paid rows s id

  grows : (s : Source) (id : ℕ) → is_paid paid s id ≡ true → is_paid (paid ++ rows) s id ≡ true
  grows s id h = ground (arith, is_paid-all s id)

  merge_stays_paid : (id : ℕ) → IsMergePaid merge_rows id → IsMergePaid (paid ++ rows) id
  merge_stays_paid id h = ground (
    arith,
    is_paid-all merged id,
    is_paid-all backfill id,
    is_paid-rows merged id,
    is_paid-rows backfill id,
  )

  merges_again : merge_awards r joined prs (paid ++ rows) ≡ []
  merges_again = merge_awards-none r joined prs (paid ++ rows) (
      payable_merges-none paid (paid ++ rows) grows prs (
        All-map (λ (m : Merge). IsMergePaid merge_rows m.pr.id) _ (λ m. merge_stays_paid m.pr.id)
          (payable_merges paid prs) (merge_awards-IsMergePaid r joined prs paid)))

  covers : Covers (with_rows (opening_state paid) opening_rows) (opening_state (paid ++ rows))
  unfolding rows
  covers = record {
    weeks = λ w. omega (
      arith,
      opened_week-append paid rows w,
      opened_week-append merge_rows (opening_rows ++ reversal_rows) w,
      opened_week-append opening_rows reversal_rows w,
    );
    issues = λ id h. ground (
      arith,
      contains-append (opened_issues paid) (opened_issues opening_rows) id,
      contains-opened_issues-append paid rows id,
      contains-opened_issues-append merge_rows (opening_rows ++ reversal_rows) id,
      contains-opened_issues-append opening_rows reversal_rows id,
    );
  }

  openings_again : opening_awards r joined prs (paid ++ rows) ≡ []
  openings_again =
      opening_awards-again r joined prs paid (paid ++ rows) ids (grows opened)
        (λ id h. ground (arith, is_paid-all opened id, is_paid-rows opened id)) covers

  none_opened : (id : ℕ) → state_is_closed (states id) ≡ true → is_paid rows opened id ≡ false
  none_opened id closed = ground (
    arith,
    is_paid-rows opened id,
    merge_awards-not_opened r joined prs paid id,
    opening_awards-not_opened r joined states prs paid id agrees closed,
    reversal_awards-not_opened prs paid id,
  )

  undone : (p : Pr) → Undone paid reversal_rows p → Undone paid rows p
  undone p h closed = elim (h closed) [
    | inl e ↦ inl e
    | inr done ↦ inr (ground (arith, is_paid-rows opened_reversed p.id))
  ]

  reversals_again : reversal_awards prs (paid ++ rows) ≡ []
  reversals_again = reversal_awards-again states paid rows none_opened prs agrees (
      All-map (Undone paid reversal_rows) (Undone paid rows) undone prs
        (reversal_awards-Undone prs paid))

  rerun_of_rows : plan r joined prs (paid ++ rows) ≡ []
  rerun_of_rows =
      rw (plan_lem r joined prs (paid ++ rows)) (rw (merges_again, openings_again, reversals_again))

-- Running the plan again over the ledger that holds its awards plans nothing: no merge, opening or
-- reversal is paid twice. It supposes that pull requests of one id are in one state, and that
-- catalog issues have ids above 0.
pub plan-rerun :
    (r : Rules) (joined : Time) (prs : List Pr) (paid : List Paid) (states : ℕ → PrState)
    → All (Agrees states) prs
    → All HasIds prs
    → plan r joined prs (record_awards paid (plan r joined prs paid)) ≡ []
plan-rerun r joined prs paid states agrees ids =
    rw (map-plan r joined prs paid states agrees ids)
      (rerun_of_rows r joined prs paid states agrees ids)
