-- ===== src/Xp/Plan/Rerun/ReversalsAgain.antt =====
-- The reversals of Plan (backend/internal/xp/xp.go) have nothing left to take back in a second run.
use skill_issues.Prelude.{
  ℕ, ◌≡◌, refl, true, false, ◌||◌, ◌⊎◌, inl, inr, Option, none, some, List, [], ◌∷◌, ◌++◌, map,
  arith, All, All-map, keep, Option-cases, subst, ◌∙◌,
}
use skill_issues.Prelude.Sort.{All-sort_stable}
use skill_issues.Prelude.Time.{Time}
use skill_issues.Xp.{Rules, PrState, Pr, Paid, Award, opened, opened_reversed, Source}
use skill_issues.Xp.Plan.{as_paid}
use skill_issues.Xp.Plan.Ledger.{is_paid, find_paid}
use skill_issues.Xp.Plan.Merges.{
  Merge, MergeState, state_is_closed, award_merge, after_merge, award_merges, merge_awards,
}
use skill_issues.Xp.Plan.Opened.{
  OpeningState, payable_issue, opening_award, after_opening, award_openings, opening_awards,
  payable_openings, pays_opening, created_before, opening_state, reversal, reverse_one,
  reversal_awards,
}
use skill_issues.Xp.Plan.Rerun.Rows.{is_paid-append, find_paid-append_none}
use skill_issues.Xp.Plan.Rerun.OpeningsAgain.{All-keep}

find_paid-none :
    (rows : List Paid) (s : Source) (id : ℕ)
    → is_paid rows s id ≡ false
    → find_paid rows s id ≡ none
find_paid-none [] s id h = refl
find_paid-none (p ∷ ps) s id h = ground (arith, find_paid-none ps s id)

award_merges-not_opened :
    (r : Rules) (joined : Time) (st : MergeState) (ms : List Merge) (id : ℕ)
    → is_paid (map as_paid (award_merges r joined st ms)) opened id ≡ false
unfolding award_merges
award_merges-not_opened r joined st [] id = refl
award_merges-not_opened r joined st (m ∷ ms) id =
    ground
      (arith, award_merges-not_opened r joined (after_merge st m (award_merge r joined st m)) ms id)

pub reversal_awards-not_opened :
    (ps : List Pr) (paid : List Paid) (id : ℕ)
    → is_paid (map as_paid (reversal_awards ps paid)) opened id ≡ false
unfolding reversal_awards
reversal_awards-not_opened [] paid id = refl
reversal_awards-not_opened (p ∷ ps) paid id = ground (arith, reversal_awards-not_opened ps paid id)

-- The state of each pull request that goes by an id.
abbrev pub Agrees : (ℕ → PrState) → Pr → Type 0
Agrees states p = p.state ≡ states p.id

award_openings-not_opened :
    (r : Rules) (states : ℕ → PrState) (st : OpeningState) (ps : List Pr) (id : ℕ)
    → All (Agrees states) ps
    → state_is_closed (states id) ≡ true
    → is_paid (map as_paid (award_openings r st ps)) opened id ≡ false
unfolding award_openings opening_award
award_openings-not_opened r states st [] id h closed = refl
award_openings-not_opened r states st (p ∷ ps) id h closed =
    elim (Option-cases (payable_issue r st p)) [
      | inl e ↦ rw (e, award_openings) (award_openings-not_opened r states st ps id h.1 closed)
      | inr (i, e) ↦
          rw (e, award_openings)
            (ground (
              arith,
              h.0,
              award_openings-not_opened r states (after_opening st p i) ps id h.1 closed,
            ))
    ]

-- Whatever a closed pull request was paid for opening is taken back, before or now.
abbrev pub Undone : List Paid → List Paid → Pr → Type 0
Undone paid rows p =
    state_is_closed p.state ≡ true
    → (find_paid paid opened p.id ≡ none)
      ⊎ (is_paid paid opened_reversed p.id || is_paid rows opened_reversed p.id) ≡ true

Undone-head :
    (paid : List Paid) (p : Pr) (o : Option Paid) (rest : List Award)
    → find_paid paid opened p.id ≡ o
    → Undone paid (map as_paid (reverse_one paid p o rest)) p
unfolding reversal
Undone-head paid p none rest e closed = inl e
Undone-head paid p (some o) rest e closed = inr (ground arith)

Undone-tail :
    (paid : List Paid) (p : Pr) (o : Option Paid) (rest : List Award) (q : Pr)
    → Undone paid (map as_paid rest) q
    → Undone paid (map as_paid (reverse_one paid p o rest)) q
unfolding reversal
Undone-tail paid p none rest q h closed = h closed
Undone-tail paid p (some o) rest q h closed = elim (h closed) [
  | inl e ↦ inl e
  | inr done ↦ inr (ground arith)
]

pub reversal_awards-Undone :
    (ps : List Pr) (paid : List Paid) → All (Undone paid (map as_paid (reversal_awards ps paid))) ps
unfolding reversal_awards
reversal_awards-Undone [] paid = tt
reversal_awards-Undone (p ∷ ps) paid =
    let o = find_paid paid opened p.id in
    (
      Undone-head paid p o (reversal_awards ps paid) refl,
      All-map (Undone paid (map as_paid (reversal_awards ps paid))) _
          (Undone-tail paid p o (reversal_awards ps paid)) ps (reversal_awards-Undone ps paid),
    )

pub opening_awards-not_opened :
    (r : Rules) (joined : Time) (states : ℕ → PrState) (prs : List Pr) (paid : List Paid) (id : ℕ)
    → All (Agrees states) prs
    → state_is_closed (states id) ≡ true
    → is_paid (map as_paid (opening_awards r joined prs paid)) opened id ≡ false
unfolding opening_awards
opening_awards-not_opened r joined states prs paid id h closed =
    award_openings-not_opened r states (opening_state paid) (payable_openings joined paid prs) id
      (All-sort_stable created_before (Agrees states) (keep (pays_opening joined paid) prs)
        (All-keep (Agrees states) (pays_opening joined paid) prs h))
      closed

pub merge_awards-not_opened :
    (r : Rules) (joined : Time) (prs : List Pr) (paid : List Paid) (id : ℕ)
    → is_paid (map as_paid (merge_awards r joined prs paid)) opened id ≡ false
unfolding merge_awards
merge_awards-not_opened r joined prs paid id = award_merges-not_opened r joined _ _ id

nothing_reversed :
    (paid : List Paid) (p : Pr) (o : Option Paid)
    → (state_is_closed p.state ≡ true → (o ≡ none) ⊎ (is_paid paid opened_reversed p.id ≡ true))
    → reverse_one paid p o [] ≡ []
nothing_reversed paid p none h = refl
nothing_reversed paid p (some o) h = ground arith

-- The second run's ledger: the first one's with `rows`, none of which opens a closed pull request.
module _ (states : ℕ → PrState) (paid rows : List Paid)
    (none_opened : (id : ℕ)
      → state_is_closed (states id) ≡ true
      → is_paid rows opened id ≡ false) where
  settled :
      (p : Pr)
      → Agrees states p
      → Undone paid rows p
      → state_is_closed p.state ≡ true
      → (find_paid (paid ++ rows) opened p.id ≡ none)
        ⊎ (is_paid (paid ++ rows) opened_reversed p.id ≡ true)
  settled p agrees undone closed = elim (undone closed) [
    | inl e ↦ inl (
        find_paid-append_none paid rows opened p.id (
          find_paid-none rows opened p.id
            (none_opened p.id (subst (λ s. state_is_closed s ≡ true) agrees closed)))
        ∙ e)
    | inr done ↦ inr (is_paid-append paid rows opened_reversed p.id ∙ done)
  ]

  pub reversal_awards-again :
      (ps : List Pr)
      → All (Agrees states) ps
      → All (Undone paid rows) ps
      → reversal_awards ps (paid ++ rows) ≡ []
  unfolding reversal_awards
  reversal_awards-again [] agrees undone = refl
  reversal_awards-again (p ∷ ps) agrees undone = rw (reversal_awards-again ps agrees.1 undone.1) (
      nothing_reversed (paid ++ rows) p (find_paid (paid ++ rows) opened p.id)
        (settled p agrees.0 undone.0))
