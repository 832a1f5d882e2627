-- ===== src/Xp/Plan/Rerun/OpeningsAgain.antt =====
-- The openings loop of Plan (backend/internal/xp/xp.go) has nothing left to pay in a second run.
use skill_issues.Prelude.{
  ℕ, ◌+◌, ◌≤◌, ◌<◌, ◌≡◌, refl, Bool, true, false, ◌⊎◌, inl, inr, none, some, List, [], ◌∷◌, ◌++◌,
  map, arith, All, All-map, if◌then◌else◌, contains, keep, Bool-cases, Option-cases, subst, sym,
  contains-append,
}
use skill_issues.Prelude.Sort.{All-of-sort_stable, All-sort_stable}
use skill_issues.Prelude.Time.{Time, week_of}
use skill_issues.Xp.{Rules, Issue, Pr, Paid, opened}
use skill_issues.Xp.Plan.{as_paid}
use skill_issues.Xp.Plan.Ledger.{is_paid, opened_week, opened_issues}
use skill_issues.Xp.Plan.Openings.{payable_issue-room}
use skill_issues.Xp.Plan.Opened.{
  OpeningState, fresh_issue, payable_issue, opening_award, after_opening, award_openings,
  opening_awards, payable_openings, pays_opening, created_before, opening_state,
}

-- `st'` counts at least what `st` counts.
pub record Covers (st st' : OpeningState) : Type 0 where
  pub weeks : (w : ℕ) → st.weeks w ≤ st'.weeks w
  pub issues : (id : ℕ) → contains st.issues id ≡ true → contains st'.issues id ≡ true

fresh_issue-none :
    (st st' : OpeningState) (issues : List Issue)
    → Covers st st'
    → fresh_issue st.issues issues ≡ none
    → fresh_issue st'.issues issues ≡ none
fresh_issue-none st st' [] c h = refl
fresh_issue-none st st' (i ∷ is) c h = ground (arith, c.issues i.id, fresh_issue-none st st' is c)

payable_issue-none :
    (r : Rules) (st st' : OpeningState) (p : Pr)
    → Covers st st'
    → payable_issue r st p ≡ none
    → payable_issue r st' p ≡ none
payable_issue-none r st st' p c h =
    ground (arith, c.weeks (week_of p.created_at), fresh_issue-none st st' p.issues c)

-- The state that the rows of `awards` add to `st`.
abbrev pub with_rows : OpeningState → List Paid → OpeningState
with_rows st rows = record {
  weeks = λ w. st.weeks w + opened_week rows w;
  issues = st.issues ++ opened_issues rows;
}

abbrev pub HasIds : Pr → Type 0
HasIds p = All (λ (i : Issue). 0 < i.id) p.issues

-- A pull request got its award, or is refused whatever is counted from then on.
abbrev Settled : Rules → OpeningState → List Paid → Pr → Type 0
Settled r st' rows p = (is_paid rows opened p.id ≡ true) ⊎ (payable_issue r st' p ≡ none)

award_openings-refused :
    (r : Rules) (st : OpeningState) (p : Pr) (ps : List Pr)
    → payable_issue r st p ≡ none
    → award_openings r st (p ∷ ps) ≡ award_openings r st ps
unfolding award_openings
award_openings-refused r st p ps e = rw (e, award_openings)

award_openings-paid :
    (r : Rules) (st : OpeningState) (p : Pr) (ps : List Pr) (i : Issue)
    → payable_issue r st p ≡ some i
    → award_openings r st (p ∷ ps)
      ≡ opening_award r p i ∷ award_openings r (after_opening st p i) ps
unfolding award_openings
award_openings-paid r st p ps i e = rw (e, award_openings)

Covers-with_rows :
    (st st' : OpeningState) (rows : List Paid) → Covers (with_rows st rows) st' → Covers st st'
Covers-with_rows st st' rows c = record {
  weeks = λ w. omega (arith, c.weeks w);
  issues = λ id h. c.issues id (ground (arith, contains-append st.issues (opened_issues rows) id));
}

HasId-fresh_issue :
    (seen : List ℕ) (issues : List Issue) {i : Issue}
    → All (λ (j : Issue). 0 < j.id) issues
    → fresh_issue seen issues ≡ some i
    → 0 < i.id
HasId-fresh_issue seen [] ids h = cc
HasId-fresh_issue seen (j ∷ js) ids h = elim (Bool-cases (contains seen j.id)) [
  | inl old ↦ HasId-fresh_issue seen js ids.1 (rw old at h)
  | inr new ↦ ground arith
]

-- The award's row counts what the loop's state counts.
Covers-after_opening :
    (r : Rules) (st st' : OpeningState) (p : Pr) (i : Issue) (rows : List Paid)
    → 0 < i.id
    → Covers (with_rows st (as_paid (opening_award r p i) ∷ rows)) st'
    → Covers (with_rows (after_opening st p i) rows) st'
unfolding opening_award after_opening
Covers-after_opening r st st' p i rows id c = record {
  weeks = λ w. ground (arith, c.weeks w);
  issues = λ j h. c.issues j (
      ground (
        arith,
        contains-append st.issues (opened_issues rows) j,
        contains-append st.issues (i.id ∷ opened_issues rows) j,
      ));
}

Settled-head :
    (r : Rules) (st' : OpeningState) (p : Pr) (i : Issue) (rows : List Paid)
    → Settled r st' (as_paid (opening_award r p i) ∷ rows) p
unfolding opening_award
Settled-head r st' p i rows = inl (ground arith)

Settled-tail :
    (r : Rules) (st' : OpeningState) (row : Paid) (rows : List Paid) (p : Pr)
    → Settled r st' rows p
    → Settled r st' (row ∷ rows) p
Settled-tail r st' row rows p (inl h) = inl (ground arith)
Settled-tail r st' row rows p (inr h) = inr h

award_openings-Settled :
    (r : Rules) (st st' : OpeningState) (ps : List Pr)
    → All HasIds ps
    → Covers (with_rows st (map as_paid (award_openings r st ps))) st'
    → All (Settled r st' (map as_paid (award_openings r st ps))) ps
award_openings-Settled r st st' [] ids c = tt
award_openings-Settled r st st' (p ∷ ps) ids c = elim (Option-cases (payable_issue r st p)) [
  | inl e ↦
      let eq = award_openings-refused r st p ps e in
      let rows = map as_paid (award_openings r st ps) in
      let c' : Covers (with_rows st rows) st' =
        subst (λ as'. Covers (with_rows st (map as_paid as')) st') eq c in
      subst (λ as'. All (Settled r st' (map as_paid as')) (p ∷ ps)) (sym eq)
        (
          inr (payable_issue-none r st st' p (Covers-with_rows st st' rows c') e),
          award_openings-Settled r st st' ps ids.1 c',
        )
  | inr (i, e) ↦
      let eq = award_openings-paid r st p ps i e in
      let rows = map as_paid (award_openings r (after_opening st p i) ps) in
      let row = as_paid (opening_award r p i) in
      let c' : Covers (with_rows st (row ∷ rows)) st' =
        subst (λ as'. Covers (with_rows st (map as_paid as')) st') eq c in
      let later = award_openings-Settled r (after_opening st p i) st' ps ids.1 (
        Covers-after_opening r st st' p i rows
          (HasId-fresh_issue st.issues p.issues ids.0 (payable_issue-room r st p e).1) c') in
      subst (λ as'. All (Settled r st' (map as_paid as')) (p ∷ ps)) (sym eq)
        (
          Settled-head r st' p i rows,
          All-map (Settled r st' rows) (Settled r st' (row ∷ rows)) (Settled-tail r st' row rows) ps
              later,
        )
]

pub All-keep : (P : Pr → Type 0) (f : Pr → Bool) (ps : List Pr) → All P ps → All P (keep f ps)
All-keep P f [] h = tt
All-keep P f (p ∷ ps) h = elim (Bool-cases (f p)) [
  | inl e ↦ rw (e, keep) (h.0, All-keep P f ps h.1)
  | inr e ↦ rw (e, keep) (All-keep P f ps h.1)
]

award_openings-none :
    (r : Rules) (st : OpeningState) (ps : List Pr)
    → All (λ (p : Pr). payable_issue r st p ≡ none) ps
    → award_openings r st ps ≡ []
unfolding award_openings
award_openings-none r st [] h = refl
award_openings-none r st (p ∷ ps) h = rw (h.0, award_openings) (award_openings-none r st ps h.1)

All-if :
    (P Q : Pr → Type 0) (b b' : Bool) (p : Pr) (rest rest' : List Pr)
    → (b' ≡ true → b ≡ true)
    → (b' ≡ true → P p → Q p)
    → All P (if b then p ∷ rest else rest)
    → (All P rest → All Q rest')
    → All Q (if b' then p ∷ rest' else rest')
All-if P Q true true p rest rest' was keeps h k = (keeps refl h.0, k h.1)
All-if P Q true false p rest rest' was keeps h k = k h.1
All-if P Q false true p rest rest' was keeps h k = cc (was refl)
All-if P Q false false p rest rest' was keeps h k = k h

-- `paid'` holds the rows of `paid` and of the first run's openings.
module _ (r : Rules) (joined : Time) (paid paid' rows : List Paid)
    (grows : (id : ℕ) → is_paid paid opened id ≡ true → is_paid paid' opened id ≡ true)
    (recorded : (id : ℕ) → is_paid rows opened id ≡ true → is_paid paid' opened id ≡ true) where
  refused_again :
      (p : Pr)
      → pays_opening joined paid' p ≡ true
      → Settled r (opening_state paid') rows p
      → payable_issue r (opening_state paid') p ≡ none
  refused_again p pays (inl done) = let h = recorded p.id done in absurd (ground arith)
  refused_again p pays (inr refused) = refused

  paid_before : (p : Pr) → pays_opening joined paid' p ≡ true → pays_opening joined paid p ≡ true
  paid_before p pays = ground (arith, grows p.id)

  keep-refused :
      (prs : List Pr)
      → All (Settled r (opening_state paid') rows) (keep (pays_opening joined paid) prs)
      → All
          (λ (p : Pr). payable_issue r (opening_state paid') p ≡ none)
          (keep (pays_opening joined paid') prs)
  keep-refused [] h = tt
  keep-refused (p ∷ ps) h =
      All-if (Settled r (opening_state paid') rows) _ (pays_opening joined paid p)
        (pays_opening joined paid' p) p (keep (pays_opening joined paid) ps)
        (keep (pays_opening joined paid') ps) (paid_before p) (refused_again p) h (keep-refused ps)

pub opening_awards-again :
    (r : Rules) (joined : Time) (prs : List Pr) (paid paid' : List Paid)
    → All HasIds prs
    → ((id : ℕ) → is_paid paid opened id ≡ true → is_paid paid' opened id ≡ true)
    → ((id : ℕ)
        → is_paid (map as_paid (opening_awards r joined prs paid)) opened id ≡ true
        → is_paid paid' opened id ≡ true)
    → Covers
        (with_rows (opening_state paid) (map as_paid (opening_awards r joined prs paid)))
        (opening_state paid')
    → opening_awards r joined prs paid' ≡ []
unfolding opening_awards
opening_awards-again r joined prs paid paid' ids grows recorded covers =
    award_openings-none r (opening_state paid') (payable_openings joined paid' prs) (
      All-sort_stable created_before _ (keep (pays_opening joined paid') prs) (
        keep-refused r joined paid paid' (map as_paid (opening_awards r joined prs paid)) grows
          recorded prs
          (All-of-sort_stable created_before _ (keep (pays_opening joined paid) prs) (
            award_openings-Settled r (opening_state paid) (opening_state paid')
              (payable_openings joined paid prs)
              (All-sort_stable created_before HasIds (keep (pays_opening joined paid) prs)
                (All-keep HasIds (pays_opening joined paid) prs ids))
              covers))))
