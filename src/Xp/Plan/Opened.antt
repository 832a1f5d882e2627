-- ===== src/Xp/Plan/Opened.antt =====
-- The openings loop and the reversals of Plan (backend/internal/xp/xp.go).
use skill_issues.Prelude.{
  ℕ, suc, Bool, true, false, not, ◌&&◌, ◌||◌, Option, none, some, List, [], ◌∷◌, ltb, leb, ◌==◌,
  if◌then◌else◌, contains, keep,
}
use skill_issues.Prelude.Int.{pos, neg}
use skill_issues.Prelude.Sort.{sort_stable, insert_by}
use skill_issues.Prelude.Time.{Time, week_of}
use skill_issues.Xp.{opened, opened_reversed, Rules, Issue, Pr, Award, Paid}
use skill_issues.Xp.Plan.Ledger.{is_none, is_paid, find_paid, opened_week, opened_issues}
use skill_issues.Xp.Plan.Merges.{zero_detail, state_is_closed}

abbrev pub has_issues : List Issue → Bool
has_issues [] = false
has_issues (i ∷ is) = true

abbrev pub pays_opening : Time → List Paid → Pr → Bool
pays_opening joined paid p =
    has_issues p.issues
    && (is_none p.no_xp_reason && (leb joined p.created_at && not (is_paid paid opened p.id)))

abbrev pub created_before : Pr → Pr → Bool
created_before a b =
    if a.created_at == b.created_at then ltb a.id b.id else ltb a.created_at b.created_at

-- What the loop over openings carries.
pub record OpeningState : Type 0 where
  pub weeks : ℕ → ℕ
  pub issues : List ℕ

-- The first issue that no opening has been paid for.
abbrev pub fresh_issue : List ℕ → List Issue → Option Issue
fresh_issue seen [] = none
fresh_issue seen (i ∷ is) = if contains seen i.id then fresh_issue seen is else some i

-- The issue that opening `p` is paid for, if it is paid.
abbrev pub payable_issue : Rules → OpeningState → Pr → Option Issue
payable_issue r st p =
    if r.opened_reward == 0 || state_is_closed p.state
    then none
    else if leb r.opened_weekly_cap (st.weeks (week_of p.created_at))
    then none
    else fresh_issue st.issues p.issues

unfoldable pub opening_award : Rules → Pr → Issue → Award
opening_award r p i = record {
  source = opened;
  pr_id = p.id;
  key = [];
  amount = pos r.opened_reward;
  detail = record zero_detail {
    issue_id = i.id;
    repository_id = p.repository_id;
    language = p.language;
  };
  earned_at = p.created_at;
}

unfoldable pub after_opening : OpeningState → Pr → Issue → OpeningState
after_opening st p i = record {
  weeks = λ w. if week_of p.created_at == w then suc (st.weeks w) else st.weeks w;
  issues = i.id ∷ st.issues;
}

unfoldable pub award_openings : Rules → OpeningState → List Pr → List Award
award_openings r st [] = []
award_openings r st (p ∷ ps) = elim (payable_issue r st p) [
  | none ↦ award_openings r st ps
  | some i ↦ opening_award r p i ∷ award_openings r (after_opening st p i) ps
]

abbrev pub payable_openings : Time → List Paid → List Pr → List Pr
payable_openings joined paid prs = sort_stable created_before (keep (pays_opening joined paid) prs)

abbrev pub opening_state : List Paid → OpeningState
opening_state paid = record { weeks = opened_week paid; issues = opened_issues paid }

unfoldable pub opening_awards : Rules → Time → List Pr → List Paid → List Award
unfolding award_openings opening_award after_opening sort_stable insert_by
opening_awards r joined prs paid =
    award_openings r (opening_state paid) (payable_openings joined paid prs)

unfoldable pub reversal : Pr → Paid → Award
unfolding neg
reversal p o = record {
  source = opened_reversed;
  pr_id = p.id;
  key = [];
  amount = neg o.amount;
  detail = record zero_detail {
    issue_id = o.detail.issue_id;
    repository_id = p.repository_id;
    language = p.language;
  };
  earned_at = o.earned_at;
}

abbrev pub reverse_one : List Paid → Pr → Option Paid → List Award → List Award
reverse_one paid p none rest = rest
reverse_one paid p (some o) rest =
    if state_is_closed p.state && not (is_paid paid opened_reversed p.id)
    then reversal p o ∷ rest
    else rest

-- An opening paid for a pull request that then closed unmerged is taken back.
unfoldable pub reversal_awards : List Pr → List Paid → List Award
unfolding reversal
reversal_awards [] paid = []
reversal_awards (p ∷ ps) paid =
    reverse_one paid p (find_paid paid opened p.id) (reversal_awards ps paid)
