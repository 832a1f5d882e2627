-- ===== src/Xp/Plan/Openings.antt =====
-- The weekly cap and the once-per-issue rule of openings in Plan (backend/internal/xp/xp.go).
use skill_issues.Prelude.{
  ℕ, ◌+◌, ◌≤◌, ◌<◌, max, ◌≡◌, refl, false, inl, inr, some, List, [], ◌∷◌, ◌++◌, map, arith,
  contains, Option-cases, Bool-cases,
}
use mathlib.Core.List.{map-append}
use skill_issues.Prelude.Time.{Time, week_of}
use skill_issues.Xp.{Rules, Issue, Pr, Award, Paid}
use skill_issues.Xp.Plan.{plan, as_paid, record_awards}
use skill_issues.Xp.Plan.Ledger.{opened_week, opened_issues}
use skill_issues.Xp.Plan.Merges.{Merge, MergeState, award_merge, after_merge, award_merges}
use skill_issues.Xp.Plan.Opened.{
  OpeningState, fresh_issue, payable_issue, opening_award, after_opening, award_openings,
  opening_awards, reversal_awards, opening_state, payable_openings,
}

pub opened_week-append :
    (ps qs : List Paid) (week : ℕ)
    → opened_week (ps ++ qs) week ≡ opened_week ps week + opened_week qs week
opened_week-append [] qs week = omega arith
opened_week-append (p ∷ ps) qs week = ground (arith, opened_week-append ps qs week)

pub contains-fresh_issue :
    (seen : List ℕ) (issues : List Issue) {i : Issue}
    → fresh_issue seen issues ≡ some i
    → contains seen i.id ≡ false
contains-fresh_issue seen [] h = cc
contains-fresh_issue seen (j ∷ js) h = elim (Bool-cases (contains seen j.id)) [
  | inl old ↦ contains-fresh_issue seen js (rw old at h)
  | inr new ↦ ground arith
]

pub payable_issue-room :
    (r : Rules) (st : OpeningState) (p : Pr) {i : Issue}
    → payable_issue r st p ≡ some i
    → (st.weeks (week_of p.created_at) < r.opened_weekly_cap)
      × (fresh_issue st.issues p.issues ≡ some i)
payable_issue-room r st p h = ground arith

-- A week's count with what the loop adds stays under the cap, or where it was.
opened_week-award_openings :
    (r : Rules) (st : OpeningState) (ps : List Pr) (week : ℕ)
    → st.weeks week + opened_week (map as_paid (award_openings r st ps)) week
      ≤ max r.opened_weekly_cap (st.weeks week)
unfolding award_openings opening_award after_opening
opened_week-award_openings r st [] week = omega arith
opened_week-award_openings r st (p ∷ ps) week = elim (Option-cases (payable_issue r st p)) [
  | inl e ↦ rw (e, award_openings) (opened_week-award_openings r st ps week)
  | inr (i, e) ↦
      rw (e, award_openings)
        (ground (
          arith,
          payable_issue-room r st p e,
          opened_week-award_openings r (after_opening st p i) ps week,
        ))
]

opened_week-award_merges :
    (r : Rules) (joined : Time) (st : MergeState) (ms : List Merge) (week : ℕ)
    → opened_week (map as_paid (award_merges r joined st ms)) week ≡ 0
unfolding award_merges
opened_week-award_merges r joined st [] week = refl
opened_week-award_merges r joined st (m ∷ ms) week = ground (
  arith,
  opened_week-award_merges r joined (after_merge st m (award_merge r joined st m)) ms week,
)

opened_week-reversal_awards :
    (ps : List Pr) (paid : List Paid) (week : ℕ)
    → opened_week (map as_paid (reversal_awards ps paid)) week ≡ 0
unfolding reversal_awards
opened_week-reversal_awards [] paid week = refl
opened_week-reversal_awards (p ∷ ps) paid week =
    ground (arith, opened_week-reversal_awards ps paid week)

-- Writing the planned awards into the ledger leaves the openings paid in one ISO week at most
-- xp.opened_weekly_cap, or as many as the ledger held before.
pub plan-weekly_cap :
    (r : Rules) (joined : Time) (prs : List Pr) (paid : List Paid) (week : ℕ)
    → opened_week (record_awards paid (plan r joined prs paid)) week
      ≤ max r.opened_weekly_cap (opened_week paid week)
unfolding plan
plan-weekly_cap r joined prs paid week = rw opened_week-append (
    simp (map-append, opened_week-append, opened_week-award_merges, opened_week-reversal_awards)
      (omega (
        arith,
        opened_week-award_openings r (opening_state paid) (payable_openings joined paid prs) week,
      )))

-- No award is for an issue that is in `seen` or that an earlier award is for.
abbrev pub AreFresh : List ℕ → List Award → Type 0
AreFresh seen [] = Unit
AreFresh seen (a ∷ rest) =
    (contains seen a.detail.issue_id ≡ false) × AreFresh (a.detail.issue_id ∷ seen) rest

award_openings-AreFresh :
    (r : Rules) (st : OpeningState) (ps : List Pr) → AreFresh st.issues (award_openings r st ps)
unfolding award_openings opening_award after_opening
award_openings-AreFresh r st [] = tt
award_openings-AreFresh r st (p ∷ ps) = elim (Option-cases (payable_issue r st p)) [
  | inl e ↦ rw (e, award_openings) (award_openings-AreFresh r st ps)
  | inr (i, e) ↦
      rw (e, award_openings)
        (
          contains-fresh_issue st.issues p.issues (payable_issue-room r st p e).1,
          award_openings-AreFresh r (after_opening st p i) ps,
        )
]

-- A catalog issue pays for an opening once: no two openings of a plan are for one issue, and none
-- is for an issue that the ledger has paid an opening for.
pub opening_awards-AreFresh :
    (r : Rules) (joined : Time) (prs : List Pr) (paid : List Paid)
    → AreFresh (opened_issues paid) (opening_awards r joined prs paid)
unfolding opening_awards
opening_awards-AreFresh r joined prs paid = award_openings-AreFresh r _ _
