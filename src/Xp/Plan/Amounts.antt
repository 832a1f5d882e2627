-- ===== src/Xp/Plan/Amounts.antt =====
-- How the amount of a merge award is reached in Plan (backend/internal/xp/xp.go).
use skill_issues.Prelude.{
  ℕ, ◌+◌, ◌*◌, ◌/◌, ◌≤◌, ◌≡◌, refl, true, false, ◌⊎◌, inl, inr, Option, some, List, [], ◌∷◌, arith,
  ltb, ◌==◌, if◌then◌else◌, contains, All, Bool-cases, subst, sym, ltb→lt,
}
use native.Mathlib.Nat.{le_trans}
use skill_issues.Prelude.Int.{ℤ, pos}
use skill_issues.Prelude.Time.{Time}
use skill_issues.Xp.{Rules, Issue, Pr, Detail, Award, Paid, backfill, source_eq}
use skill_issues.Xp.Plan.Ledger.{merged_repos}
use skill_issues.Xp.Plan.Merges.{
  Merge, MergeState, base_of, hardest, hardest_from, capped_amount, award_merge, after_merge,
  award_merges, merge_awards, repository_id-award_merge,
}

-- The base and the five bonuses that a detail names.
abbrev pub parts_sum : Detail → ℕ
parts_sum d = d.clean_merge + (d.approval + (d.ci + (d.backlog + (d.first_in_repo + d.base))))

-- All of the parts, or the backfill share of them.
abbrev pub share_of : Rules → Award → ℕ
share_of r a =
    if source_eq a.source backfill
    then parts_sum a.detail * r.backfill_percent / 100
    else parts_sum a.detail

abbrev pub IsAccounted : Rules → Award → Type 0
IsAccounted r a = (amount : ℕ) × (a.amount ≡ pos amount) × (amount + a.detail.capped ≡ share_of r a)

capped_amount-le : (cap share : ℕ) (day : ℤ) → capped_amount cap day share ≤ share
unfolding capped_amount
capped_amount-le cap share day = ground arith

award_merge-IsAccounted :
    (r : Rules) (joined : Time) (st : MergeState) (m : Merge)
    → IsAccounted r (award_merge r joined st m)
unfolding award_merge
award_merge-IsAccounted r joined st m = (_, refl, ground arith)

award_merges-IsAccounted :
    (r : Rules) (joined : Time) (st : MergeState) (ms : List Merge)
    → All (IsAccounted r) (award_merges r joined st ms)
unfolding award_merges
award_merges-IsAccounted r joined st [] = tt
award_merges-IsAccounted r joined st (m ∷ ms) = (
  award_merge-IsAccounted r joined st m,
  award_merges-IsAccounted r joined (after_merge st m (award_merge r joined st m)) ms,
)

-- Every merge award pays what its stored detail says: the amount and what the daily cap took off
-- are together the sum of base, first merge, backlog, checks, approval and clean merge, or the
-- backfill percentage of that sum, rounded down, for an award whose source is backfill. No amount is
-- negative.
pub merge_awards-IsAccounted :
    (r : Rules) (joined : Time) (prs : List Pr) (paid : List Paid)
    → All (IsAccounted r) (merge_awards r joined prs paid)
unfolding merge_awards
merge_awards-IsAccounted r joined prs paid = award_merges-IsAccounted r joined _ _

-- The first-merge bonuses that awards pay in one repository.
abbrev pub first_bonuses : List Award → ℕ → ℕ
first_bonuses [] repo = 0
first_bonuses (a ∷ rest) repo =
    if a.detail.repository_id == repo
    then a.detail.first_in_repo + first_bonuses rest repo
    else first_bonuses rest repo

first_in_repo-award_merge :
    (r : Rules) (joined : Time) (st : MergeState) (m : Merge)
    → (award_merge r joined st m).detail.first_in_repo
      ≡ (if contains st.repos m.pr.repository_id then 0 else r.first_merge_repo_bonus)
unfolding award_merge
first_in_repo-award_merge r joined st m = refl

first_bonuses-award_merges :
    (r : Rules) (joined : Time) (st : MergeState) (ms : List Merge) (repo : ℕ)
    → first_bonuses (award_merges r joined st ms) repo
      ≤ (if contains st.repos repo then 0 else r.first_merge_repo_bonus)
unfolding award_merges after_merge
first_bonuses-award_merges r joined st [] repo = ground arith
first_bonuses-award_merges r joined st (m ∷ ms) repo = ground (
  arith,
  repository_id-award_merge r joined st m,
  first_in_repo-award_merge r joined st m,
  first_bonuses-award_merges r joined (after_merge st m (award_merge r joined st m)) ms repo,
)

-- A plan pays the bonus for a first merge in a repository at most once, and not at all where the
-- ledger already holds a merge in it.
pub first_bonuses-merge_awards :
    (r : Rules) (joined : Time) (prs : List Pr) (paid : List Paid) (repo : ℕ)
    → first_bonuses (merge_awards r joined prs paid) repo
      ≤ (if contains (merged_repos paid) repo then 0 else r.first_merge_repo_bonus)
unfolding merge_awards
first_bonuses-merge_awards r joined prs paid repo = first_bonuses-award_merges r joined _ _ repo

abbrev pub IsIn : {A : Type 0} → A → List A → Type 0
IsIn a [] = ⊥
IsIn a (x ∷ xs) = (a ≡ x) ⊎ IsIn a xs

-- `c` and `base'` come out of the loop of `hardest` from `b` and `base` over the issues.
abbrev HardestOf : Rules → Issue → ℕ → List Issue → Option Issue → ℕ → Type 0
HardestOf r b base issues best base' =
    (c : Issue) × (best ≡ some c)
    × ((c ≡ b) ⊎ IsIn c issues)
    × (base' ≡ base_of r c.difficulty)
    × (base ≤ base')
    × All (λ (j : Issue). base_of r j.difficulty ≤ base') issues

replaced :
    (r : Rules) (b : Issue) (base : ℕ) (i : Issue) (rest : List Issue)
    → ltb base (base_of r i.difficulty) ≡ true
    → hardest_from r (some b) base (i ∷ rest)
      ≡ hardest_from r (some i) (base_of r i.difficulty) rest
unfolding hardest_from
replaced r b base i rest better = rw (better, hardest_from)

kept :
    (r : Rules) (b : Issue) (base : ℕ) (i : Issue) (rest : List Issue)
    → ltb base (base_of r i.difficulty) ≡ false
    → hardest_from r (some b) base (i ∷ rest) ≡ hardest_from r (some b) base rest
unfolding hardest_from
kept r b base i rest worse = rw (worse, hardest_from)

hardest_from-HardestOf :
    (r : Rules) (b : Issue) (base : ℕ) (issues : List Issue)
    → base ≡ base_of r b.difficulty
    → HardestOf r b base issues
        (hardest_from r (some b) base issues).0
        (hardest_from r (some b) base issues).1
unfolding hardest_from
hardest_from-HardestOf r b base [] e = (b, refl, inl refl, e, omega arith, tt)
hardest_from-HardestOf r b base (i ∷ rest) e =
    elim (Bool-cases (ltb base (base_of r i.difficulty))) [
      | inl better ↦
          let (c, found, where_from, pays, above, all) =
            hardest_from-HardestOf r i (base_of r i.difficulty) rest refl in
          subst (λ o. HardestOf r b base (i ∷ rest) o.0 o.1) (sym (replaced r b base i rest better))
            (
              c,
              found,
              inr where_from,
              pays,
              omega (arith, above, ltb→lt base (base_of r i.difficulty) better),
              (above, all),
            )
      | inr worse ↦
          let (c, found, where_from, pays, above, all) = hardest_from-HardestOf r b base rest e in
          subst (λ o. HardestOf r b base (i ∷ rest) o.0 o.1) (sym (kept r b base i rest worse))
            (
              c,
              found,
              elim where_from [ inl p ↦ inl p | inr q ↦ inr (inr q) ],
              pays,
              above,
              (le_trans (ground arith) above, all),
            )
    ]

-- The issue that a merge is paid for is one of those it closes, its base is the one of that
-- issue's difficulty, and no closed issue has a higher one.
pub hardest-is_max :
    (r : Rules) (first : Issue) (others : List Issue)
    → let (best, base) = hardest r (first ∷ others) in
      (c : Issue) × (best ≡ some c)
      × IsIn c (first ∷ others)
      × (base ≡ base_of r c.difficulty)
      × All (λ (j : Issue). base_of r j.difficulty ≤ base) (first ∷ others)
unfolding hardest
hardest-is_max r first others =
    let (c, found, where_from, pays, above, all) =
      hardest_from-HardestOf r first (base_of r first.difficulty) others refl in
    (c, found, where_from, pays, (above, all))
