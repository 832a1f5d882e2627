-- ===== src/Xp/Plan/Merges.antt =====
-- The merges loop of Plan (backend/internal/xp/xp.go), with `hardest`, `pick` and `isDocs`.
use skill_issues.Prelude.{
  arith, ◌≡◌, refl, ℕ, suc, ◌+◌, ◌-◌, ◌*◌, ◌/◌, Bool, true, false, not, ◌&&◌, Option, none, some,
  List, [], ◌∷◌, ltb, leb, ◌==◌, if◌then◌else◌, contains, any,
}
use skill_issues.Prelude.Int.{ℤ, pos, negsuc, ◌+ℤ◌}
use skill_issues.Prelude.Sort.{sort_stable, insert_by}
use skill_issues.Prelude.Text.{Text, to_lower, contains_elem, ascii}
use skill_issues.Prelude.Time.{Time, day_ns, day_of}
use skill_issues.Xp.{
  merged, backfill, Difficulty, beginner, intermediate, advanced, unclassified, Rules, Issue,
  PrState, is_closed, is_merged, Checks, success, not_success, Pr, Detail, Award, Paid,
}
use skill_issues.Xp.Plan.Ledger.{is_none, is_paid, is_merge, merged_repos, repo_day}

unfoldable pub base_of : Rules → Difficulty → ℕ
base_of r beginner = r.base_beginner
base_of r intermediate = r.base_intermediate
base_of r advanced = r.base_advanced
base_of r unclassified = r.base_unclassified

-- The loop of `hardest` over its variables `best` and `base`.
unfoldable pub hardest_from : Rules → Option Issue → ℕ → List Issue → Option Issue × ℕ
unfolding base_of
hardest_from r best base [] = (best, base)
hardest_from r none base (i ∷ is) = hardest_from r (some i) (base_of r i.difficulty) is
hardest_from r (some b) base (i ∷ is) = elim (ltb base (base_of r i.difficulty)) [
  | true ↦ hardest_from r (some i) (base_of r i.difficulty) is
  | false ↦ hardest_from r (some b) base is
]

unfoldable pub hardest : Rules → List Issue → Option Issue × ℕ
unfolding hardest_from
hardest r issues = hardest_from r none r.base_unlinked issues

unfoldable pub pick : Bool → ℕ → ℕ → ℕ
pick ci with_ci without_ci = if ci then with_ci else without_ci

abbrev pub docs_labels : List Text
docs_labels =
    ascii "docs"
    ∷ ascii "documentation"
    ∷ ascii "doc"
    ∷ ascii "type: docs"
    ∷ ascii "type: documentation"
    ∷ ascii "area: docs"
    ∷ ascii "kind/documentation"
    ∷ []

unfoldable pub is_docs : List Text → Bool
unfolding to_lower
is_docs labels = any (λ l. contains_elem docs_labels (to_lower l)) labels

-- A merge that pays: `at` is its `*MergedAt`.
pub record Merge : Type 0 where
  pub at : Time
  pub pr : Pr

abbrev state_is_merged : PrState → Bool
state_is_merged is_merged = true
state_is_merged _ = false

abbrev pub state_is_closed : PrState → Bool
state_is_closed is_closed = true
state_is_closed _ = false

abbrev pub pays_merge : List Paid → Pr → Bool
pays_merge paid p =
    state_is_merged p.state
    && (is_none p.no_xp_reason
        && (not (is_paid paid merged p.id) && not (is_paid paid backfill p.id)))

abbrev pub merge_at : List Paid → Pr → Option Time → List Merge → List Merge
merge_at paid p none rest = rest
merge_at paid p (some at) rest =
    if pays_merge paid p then record { at = at; pr = p } ∷ rest else rest

abbrev pub payable_merges : List Paid → List Pr → List Merge
payable_merges paid [] = []
payable_merges paid (p ∷ ps) = merge_at paid p p.merged_at (payable_merges paid ps)

abbrev pub merge_before : Merge → Merge → Bool
merge_before a b = if a.at == b.at then ltb a.pr.id b.pr.id else ltb a.at b.at

-- What the loop over merges carries.
pub record MergeState : Type 0 where
  pub repos : List ℕ
  pub day_total : ℕ → ℕ → ℤ

abbrev pub zero_detail : Detail
zero_detail = record {
  base = 0;
  difficulty = none;
  issue_id = 0;
  first_in_repo = 0;
  backlog = 0;
  ci = 0;
  approval = 0;
  clean_merge = 0;
  percent = 0;
  capped = 0;
  repository_id = 0;
  language = [];
  docs = false;
  claimed = false;
}

-- `at.Sub(*createdAt) >= BacklogDays*24h`; the sum keeps the difference from going below 0.
backlog_of : Rules → Time → Option Time → ℕ
backlog_of r at none = 0
backlog_of r at (some created) =
    if ltb 0 r.backlog_days && leb (created + r.backlog_days * day_ns) at
    then r.backlog_bonus
    else 0

-- The part of the detail that depends on the hardest issue.
issue_detail : Rules → Time → List Issue → Option Issue → Detail → Detail
unfolding backlog_of is_docs
issue_detail r at issues none d = d
issue_detail r at issues (some i) d = record d {
  difficulty = some i.difficulty;
  issue_id = i.id;
  docs = is_docs i.labels;
  claimed = any (λ (j : Issue). j.claimed_by_author) issues;
  backlog = backlog_of r at i.created_at;
}

ci_of : Rules → Option Checks → ℕ
ci_of r (some success) = r.ci_bonus
ci_of r (some not_success) = 0
ci_of r none = 0

-- The detail of one merge before the share and the cap.
unfoldable pub merge_detail : Rules → List ℕ → Merge → Detail
unfolding issue_detail ci_of hardest pick
merge_detail r repos m =
    let p = m.pr in
    let (issue, base) = hardest r p.issues in
    let ci = not (is_none p.checks) in
    let d = record zero_detail {
      base = base;
      repository_id = p.repository_id;
      language = p.language;
    } in
    record (issue_detail r m.at p.issues issue d) {
      first_in_repo = if contains repos p.repository_id then 0 else r.first_merge_repo_bonus;
      ci = ci_of r p.checks;
      approval = if ltb 0 p.approvals then pick ci r.approval_bonus r.approval_bonus_no_ci else 0;
      clean_merge =
          if p.changes_requested == 0
          then pick ci r.clean_merge_bonus r.clean_merge_bonus_no_ci
          else 0;
    }

abbrev pub detail_sum : Detail → ℕ
detail_sum d = d.base + d.first_in_repo + d.backlog + d.ci + d.approval + d.clean_merge

-- `max(cap - day, 0)`
abbrev pub room_left : ℕ → ℤ → ℕ
room_left cap (pos day) = cap - day
room_left cap (negsuc n) = cap + suc n

-- The amount of a merge of `share` under the daily cap, where `day` is the total so far.
unfoldable pub capped_amount : ℕ → ℤ → ℕ → ℕ
capped_amount cap day share =
    if ltb 0 cap && ltb (room_left cap day) share then room_left cap day else share

unfoldable pub award_merge : Rules → Time → MergeState → Merge → Award
unfolding merge_detail capped_amount
award_merge r joined st m =
    let d = merge_detail r st.repos m in
    let early = ltb m.at joined in
    let share = if early then detail_sum d * r.backfill_percent / 100 else detail_sum d in
    let amount =
      capped_amount r.repo_daily_cap (st.day_total m.pr.repository_id (day_of m.at)) share in
    record {
      source = if early then backfill else merged;
      pr_id = m.pr.id;
      key = [];
      amount = pos amount;
      detail = record d {
        percent = if early then r.backfill_percent else 0;
        capped = share - amount;
      };
      earned_at = m.at;
    }

unfoldable pub after_merge : MergeState → Merge → Award → MergeState
after_merge st m a = record {
  repos = m.pr.repository_id ∷ st.repos;
  day_total = λ repo day.
      if m.pr.repository_id == repo && day_of m.at == day
      then a.amount +ℤ st.day_total repo day
      else st.day_total repo day;
}

unfoldable pub award_merges : Rules → Time → MergeState → List Merge → List Award
unfolding award_merge after_merge
award_merges r joined st [] = []
award_merges r joined st (m ∷ ms) =
    let a = award_merge r joined st m in a ∷ award_merges r joined (after_merge st m a) ms

unfoldable pub merge_awards : Rules → Time → List Pr → List Paid → List Award
unfolding award_merges sort_stable insert_by
merge_awards r joined prs paid =
    award_merges r joined (record { repos = merged_repos paid; day_total = repo_day paid })
      (sort_stable merge_before (payable_merges paid prs))

repository_id-issue_detail :
    (r : Rules) (at : Time) (issues : List Issue) (i : Option Issue) (d : Detail)
    → (issue_detail r at issues i d).repository_id ≡ d.repository_id
unfolding issue_detail
repository_id-issue_detail r at issues none d = refl
repository_id-issue_detail r at issues (some i) d = refl

pub repository_id-award_merge :
    (r : Rules) (joined : Time) (st : MergeState) (m : Merge)
    → (award_merge r joined st m).detail.repository_id ≡ m.pr.repository_id
unfolding award_merge
repository_id-award_merge r joined st m =
    repository_id-issue_detail r m.at m.pr.issues (hardest r m.pr.issues).0 _

pub is_merge-award_merge :
    (r : Rules) (joined : Time) (st : MergeState) (m : Merge)
    → is_merge (award_merge r joined st m).source ≡ true
unfolding award_merge
is_merge-award_merge r joined st m = ground arith
