-- ===== src/Xp/Summary/Streaks.antt =====
-- The streak of weeks with a merge (backend/internal/xp/summary.go).
use skill_issues.Prelude.{
  ℕ, suc, ◌≤◌, ◌<◌, max, some, List, [], ◌∷◌, arith, if◌then◌else◌, if_cases, contains, Bool-cases,
  inl, inr,
}
use skill_issues.Prelude.Int.{ℤ}
use skill_issues.Prelude.Sort.{sort_stable}
use skill_issues.Prelude.Time.{Time, week_of}
use skill_issues.Xp.Quests.{Event, earned_before}
use skill_issues.Xp.Summary.{
  Walk, BadgeDef, SummaryState, start_summary, follows, count_streak, count_details, add_amount,
  is_a_merge, count_event, summary_step, walk_ledger, is_current, badge_defs, ledger_state,
  summarise,
}

-- A streak is part of the best one, and each of its weeks has a merge of its own.
abbrev IsBounded : Walk → Type 0
IsBounded w = (w.streak ≤ w.best_streak) × (w.best_streak ≤ w.merges)

-- One week more is possible only with one merge more.
count_streak-IsBounded :
    (week : ℕ) (s : SummaryState)
    → s.walk.streak ≤ s.walk.best_streak
    → s.walk.best_streak < s.walk.merges
    → IsBounded (count_streak week s).walk
count_streak-IsBounded week s h k =
    if_cases (λ (t : SummaryState). IsBounded t.walk) (contains s.weeks week) s
      (let streak = if follows week s.last_week then suc s.walk.streak else 1 in
        record s {
          walk = record s.walk { streak = streak; best_streak = max s.walk.best_streak streak };
          last_week = some week;
          weeks = week ∷ s.weeks;
        })
      (λ seen. (h, omega (arith, k)))
      (λ fresh. elim (Bool-cases (follows week s.last_week)) [
        | inl next ↦ rw next (omega arith, omega (arith, h, k))
        | inr apart ↦ rw apart (omega arith, omega (arith, k))
      ])

count_event-IsBounded :
    (e : Event) (s : SummaryState) → IsBounded s.walk → IsBounded (count_event e s).walk
unfolding count_event
count_event-IsBounded e s h =
    let paid = add_amount e s in
    if_cases (λ (t : SummaryState). IsBounded t.walk) (is_a_merge e)
      (count_streak (week_of e.earned_at) (record paid { walk = count_details e paid.walk })) paid
      (λ merge.
        count_streak-IsBounded (week_of e.earned_at)
          (record paid { walk = count_details e paid.walk }) h.0 (omega (arith, h.1)))
      (λ other. h)

walk_ledger-IsBounded :
    (ds : List BadgeDef) (es : List Event) (s : SummaryState)
    → IsBounded s.walk
    → IsBounded (walk_ledger ds es s).walk
unfolding walk_ledger summary_step
walk_ledger-IsBounded ds [] s h = h
walk_ledger-IsBounded ds (e ∷ es) s h =
    walk_ledger-IsBounded ds es (summary_step ds e s) (count_event-IsBounded e s h)

-- On every profile the current streak is no longer than the best one, and the best one has no more
-- weeks than there are merges.
pub summarise-streak :
    (guess : ℕ → ℕ → ℕ) (events : List Event) (step : ℤ) (now : Time)
    → ((summarise guess events step now).streak.current
        ≤ (summarise guess events step now).streak.best)
      × ((summarise guess events step now).streak.best ≤ (summarise guess events step now).merges)
unfolding summarise
summarise-streak guess events step now =
    let s = ledger_state guess events step in
    let h =
      walk_ledger-IsBounded (badge_defs guess step) (sort_stable earned_before events) start_summary
        (omega arith, omega arith) in
    (
      if_cases (λ n. n ≤ s.walk.best_streak) (is_current (week_of now) s.last_week) s.walk.streak 0
          (λ now_on. h.0) (λ over. omega arith),
      h.1,
    )
