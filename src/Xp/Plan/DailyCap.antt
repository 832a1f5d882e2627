-- ===== src/Xp/Plan/DailyCap.antt =====
-- xp.repo_daily_cap in Plan (backend/internal/xp/xp.go).
use skill_issues.Prelude.{
  ℕ, Bool, if◌then◌else◌, ap, ◌<◌, ◌≡◌, refl, ◌&&◌, true, false, ◌⊎◌, inl, inr, List, [], ◌∷◌, ◌++◌,
  map, arith, ◌==◌, Option-cases,
}
use mathlib.Core.List.{map-append}
use skill_issues.Prelude.Int.{ℤ, pos, ◌+ℤ◌, ◌≤ℤ◌, int_laws, pos_part, neg_part}
use skill_issues.Prelude.Time.{Time, day_of}
use skill_issues.Xp.{Rules, Pr, Paid}
use skill_issues.Xp.Plan.{plan, as_paid, record_awards}
use skill_issues.Xp.Plan.Ledger.{is_merge, repo_day}
use skill_issues.Xp.Plan.Merges.{
  Merge, MergeState, capped_amount, award_merge, after_merge, is_merge-award_merge,
  repository_id-award_merge, award_merges, merge_awards,
}
use skill_issues.Xp.Plan.Opened.{
  OpeningState, award_openings, opening_award, after_opening, payable_issue, opening_awards,
  reversal_awards,
}

-- A total that is under the cap, or that did not move.
abbrev pub Within : ℕ → ℤ → ℤ → Type 0
Within cap before after = (after ≤ℤ pos cap) ⊎ (after ≡ before)

capped_amount-Within :
    (cap share : ℕ) (day : ℤ) → 0 < cap → Within cap day (pos (capped_amount cap day share) +ℤ day)
unfolding capped_amount ◌+ℤ◌
capped_amount-Within cap share day h = ground arith

if-+ℤ :
    (b : Bool) (x y z : ℤ) → (if b then x +ℤ (y +ℤ z) else y +ℤ z) ≡ (if b then x +ℤ y else y) +ℤ z
if-+ℤ true x y z = omega int_laws
if-+ℤ false x y z = refl

repo_day-append :
    (ps qs : List Paid) (repo day : ℕ)
    → repo_day (ps ++ qs) repo day ≡ repo_day ps repo day +ℤ repo_day qs repo day
repo_day-append [] qs repo day = omega int_laws
repo_day-append (p ∷ ps) qs repo day = rw (repo_day-append ps qs repo day) (
    if-+ℤ (is_merge p.source && (p.detail.repository_id == repo && day_of p.earned_at == day))
      p.amount (repo_day ps repo day) (repo_day qs repo day))

Within-add :
    (cap : ℕ) (amount day extra : ℤ)
    → Within cap day (amount +ℤ day)
    → Within cap (amount +ℤ day) (amount +ℤ day +ℤ extra)
    → Within cap day (day +ℤ (amount +ℤ extra))
Within-add cap amount day extra one (inl all_fit) = inl (omega int_laws)
Within-add cap amount day extra (inl fits) (inr none_more) =
    inl (omega (int_laws, ap pos_part none_more, ap neg_part none_more))
Within-add cap amount day extra (inr same) (inr none_more) = inr (
    omega
      (int_laws, ap pos_part same, ap neg_part same, ap pos_part none_more, ap neg_part none_more))

-- One merge, of this day and repository if `b`, and the merges after it.
Within-step :
    (cap : ℕ) (b : Bool) (amount day extra : ℤ)
    → (b ≡ true → Within cap day (amount +ℤ day))
    → Within cap (if b then amount +ℤ day else day) ((if b then amount +ℤ day else day) +ℤ extra)
    → Within cap day (day +ℤ (if b then amount +ℤ extra else extra))
Within-step cap false amount day extra one rest = rest
Within-step cap true amount day extra one rest = Within-add cap amount day extra (one refl) rest

award_merge-Within :
    (r : Rules) (joined : Time) (st : MergeState) (m : Merge)
    → 0 < r.repo_daily_cap
    → let day = st.day_total m.pr.repository_id (day_of m.at) in
      Within r.repo_daily_cap day ((award_merge r joined st m).amount +ℤ day)
unfolding award_merge
award_merge-Within r joined st m h = capped_amount-Within r.repo_daily_cap _ _ h

award_merges-Within :
    (r : Rules) (joined : Time) (st : MergeState) (ms : List Merge) (repo day : ℕ)
    → 0 < r.repo_daily_cap
    → Within r.repo_daily_cap
        (st.day_total repo day)
        (st.day_total repo day +ℤ repo_day (map as_paid (award_merges r joined st ms)) repo day)
unfolding award_merges after_merge
award_merges-Within r joined st [] repo day h = inr (omega int_laws)
award_merges-Within r joined st (m ∷ ms) repo day h =
    let a = award_merge r joined st m in
    rw (is_merge-award_merge r joined st m, repository_id-award_merge r joined st m)
      (Within-step r.repo_daily_cap (m.pr.repository_id == repo && day_of m.at == day) a.amount
        (st.day_total repo day)
        (repo_day (map as_paid (award_merges r joined (after_merge st m a) ms)) repo day)
        (λ same.
          let p : m.pr.repository_id ≡ repo = ground arith in
          let q : day_of m.at ≡ day = ground arith in
          rw (← p, ← q) (award_merge-Within r joined st m h))
        (award_merges-Within r joined (after_merge st m a) ms repo day h))

-- The awards that are not for a merge add nothing to a day's total.
repo_day-award_openings :
    (r : Rules) (st : OpeningState) (ps : List Pr) (repo day : ℕ)
    → repo_day (map as_paid (award_openings r st ps)) repo day ≡ pos 0
unfolding award_openings opening_award
repo_day-award_openings r st [] repo day = refl
repo_day-award_openings r st (p ∷ ps) repo day = elim (Option-cases (payable_issue r st p)) [
  | inl e ↦ rw (e, award_openings) (repo_day-award_openings r st ps repo day)
  | inr (i, e) ↦
      rw (e, award_openings) (repo_day-award_openings r (after_opening st p i) ps repo day)
]

repo_day-reversal_awards :
    (ps : List Pr) (paid : List Paid) (repo day : ℕ)
    → repo_day (map as_paid (reversal_awards ps paid)) repo day ≡ pos 0
unfolding reversal_awards
repo_day-reversal_awards [] paid repo day = refl
repo_day-reversal_awards (p ∷ ps) paid repo day =
    ground (arith, repo_day-reversal_awards ps paid repo day)

repo_day-plan :
    (r : Rules) (joined : Time) (prs : List Pr) (paid : List Paid) (repo day : ℕ)
    → repo_day (map as_paid (plan r joined prs paid)) repo day
      ≡ repo_day (map as_paid (merge_awards r joined prs paid)) repo day
unfolding plan opening_awards
repo_day-plan r joined prs paid repo day =
    simp (map-append, repo_day-append, repo_day-award_openings, repo_day-reversal_awards)
      (omega int_laws)

-- With a daily cap set, writing the planned awards into the ledger leaves what one person earns by
-- merges in one repository on one UTC day at most the cap, or where it stood before: whatever the
-- pull requests, and whatever the ledger held.
pub plan-daily_cap :
    (r : Rules) (joined : Time) (prs : List Pr) (paid : List Paid) (repo day : ℕ)
    → 0 < r.repo_daily_cap
    → (repo_day (record_awards paid (plan r joined prs paid)) repo day ≤ℤ pos r.repo_daily_cap)
      ⊎ (repo_day (record_awards paid (plan r joined prs paid)) repo day ≡ repo_day paid repo day)
unfolding merge_awards
plan-daily_cap r joined prs paid repo day h =
    rw
      (
        repo_day-append paid (map as_paid (plan r joined prs paid)) repo day,
        repo_day-plan r joined prs paid repo day,
      )
      (award_merges-Within r joined _ _ repo day h)
