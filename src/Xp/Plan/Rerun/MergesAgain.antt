-- ===== src/Xp/Plan/Rerun/MergesAgain.antt =====
-- The merges loop of Plan (backend/internal/xp/xp.go) has nothing left to pay in a second run.
use skill_issues.Prelude.{
  ℕ, ◌≡◌, refl, Bool, true, false, ◌||◌, Option, none, some, List, [], ◌∷◌, map, arith, All,
  All-map, if◌then◌else◌,
}
use skill_issues.Prelude.Sort.{All-of-sort_stable}
use skill_issues.Prelude.Time.{Time}
use skill_issues.Xp.{Rules, Pr, Paid, Source, Award, merged, backfill}
use skill_issues.Xp.Plan.{as_paid}
use skill_issues.Xp.Plan.Ledger.{is_paid}
use skill_issues.Xp.Plan.Merges.{
  Merge, MergeState, merge_at, pays_merge, payable_merges, merge_before, award_merge, after_merge,
  award_merges, merge_awards,
}

abbrev pub IsMergePaid : List Paid → ℕ → Type 0
IsMergePaid paid id = (is_paid paid merged id || is_paid paid backfill id) ≡ true

IsMergePaid-head :
    (r : Rules) (joined : Time) (st : MergeState) (m : Merge) (rest : List Award)
    → IsMergePaid (map as_paid (award_merge r joined st m ∷ rest)) m.pr.id
unfolding award_merge
IsMergePaid-head r joined st m rest = ground arith

IsMergePaid-tail :
    (p : Paid) (ps : List Paid) (id : ℕ) → IsMergePaid ps id → IsMergePaid (p ∷ ps) id
IsMergePaid-tail p ps id h = ground arith

award_merges-IsMergePaid :
    (r : Rules) (joined : Time) (st : MergeState) (ms : List Merge)
    → All (λ (m : Merge). IsMergePaid (map as_paid (award_merges r joined st ms)) m.pr.id) ms
unfolding award_merges
award_merges-IsMergePaid r joined st [] = tt
award_merges-IsMergePaid r joined st (m ∷ ms) =
    let a = award_merge r joined st m in
    let later = award_merges r joined (after_merge st m a) ms in
    (
      IsMergePaid-head r joined st m later,
      All-map (λ (n : Merge). IsMergePaid (map as_paid later) n.pr.id) _
          (λ n h. IsMergePaid-tail (as_paid a) (map as_paid later) n.pr.id h) ms
          (award_merges-IsMergePaid r joined (after_merge st m a) ms),
    )

-- Each merge that pays gets its award.
pub merge_awards-IsMergePaid :
    (r : Rules) (joined : Time) (prs : List Pr) (paid : List Paid)
    → All
        (λ (m : Merge). IsMergePaid (map as_paid (merge_awards r joined prs paid)) m.pr.id)
        (payable_merges paid prs)
unfolding merge_awards
merge_awards-IsMergePaid r joined prs paid =
    All-of-sort_stable merge_before _ (payable_merges paid prs)
      (award_merges-IsMergePaid r joined _ _)

nothing_if :
    (P : Merge → Type 0) (b b' : Bool) (m : Merge) (rest rest' : List Merge)
    → (b ≡ false → b' ≡ false)
    → (P m → b' ≡ false)
    → All P (if b then m ∷ rest else rest)
    → (All P rest → rest' ≡ [])
    → (if b' then m ∷ rest' else rest') ≡ []
nothing_if P true b' m rest rest' stays now h k = rw (now h.0) (k h.1)
nothing_if P false b' m rest rest' stays now h k = rw (stays refl) (k h)

-- `paid'` holds at least the merge rows of `paid`.
module _ (paid paid' : List Paid)
    (grows : (s : Source) (id : ℕ) → is_paid paid s id ≡ true → is_paid paid' s id ≡ true) where
  stays_paid : (p : Pr) → pays_merge paid p ≡ false → pays_merge paid' p ≡ false
  stays_paid p h = ground (arith, grows merged p.id, grows backfill p.id)

  now_paid : (p : Pr) → IsMergePaid paid' p.id → pays_merge paid' p ≡ false
  now_paid p h = ground arith

  nothing_at :
      (p : Pr) (at : Option Time) (rest rest' : List Merge)
      → All (λ (m : Merge). IsMergePaid paid' m.pr.id) (merge_at paid p at rest)
      → (All (λ (m : Merge). IsMergePaid paid' m.pr.id) rest → rest' ≡ [])
      → merge_at paid' p at rest' ≡ []
  nothing_at p none rest rest' h k = k h
  nothing_at p (some at) rest rest' h k =
      nothing_if (λ (m : Merge). IsMergePaid paid' m.pr.id) (pays_merge paid p) (pays_merge paid' p)
        (record { at = at; pr = p }) rest rest' (stays_paid p) (now_paid p) h k

  pub payable_merges-none :
      (prs : List Pr)
      → All (λ (m : Merge). IsMergePaid paid' m.pr.id) (payable_merges paid prs)
      → payable_merges paid' prs ≡ []
  payable_merges-none [] h = refl
  payable_merges-none (p ∷ ps) h =
      nothing_at p p.merged_at (payable_merges paid ps) (payable_merges paid' ps) h
        (payable_merges-none ps)

pub merge_awards-none :
    (r : Rules) (joined : Time) (prs : List Pr) (paid : List Paid)
    → payable_merges paid prs ≡ []
    → merge_awards r joined prs paid ≡ []
unfolding merge_awards
merge_awards-none r joined prs paid e = rw e
