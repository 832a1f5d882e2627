-- ===== src/Search/Interleave/Distinct.antt =====
-- No issue stands twice in what `interleave` (search_categories.go) returns.
use skill_issues.Prelude.{ℕ, zero, suc, ◌≡◌, false, List, [], ◌∷◌, ◌++◌, contains}
use skill_issues.Search.Interleave.{
  Category, SearchHit, Round, Merged, merge_rounds, round, rounds, interleave, total,
}
use skill_issues.Search.Interleave.Steps.{round_cases, rounds_cases, skip_seen-head}

-- No hit is among the seen ids or among the hits before it.
abbrev pub AreNew : List ℕ → List SearchHit → Type 0
AreNew seen [] = Unit
AreNew seen (h ∷ hs) = (contains seen h.id ≡ false) × AreNew (h.id ∷ seen) hs

-- A round's hits are new, and what is new after it goes on being new.
round-AreNew :
    (seen : List ℕ) (cats : List Category) (later : List SearchHit)
    → AreNew (round seen cats).seen later
    → AreNew seen ((round seen cats).hits ++ later)
round-AreNew seen [] later h = unfold round in h
round-AreNew seen (c ∷ cs) later new =
    round_cases (λ (r : Round). AreNew r.seen later → AreNew seen (r.hits ++ later)) seen c cs
      (λ e. round-AreNew seen cs later)
      (λ x xs e h. (skip_seen-head seen c.ids x xs e, round-AreNew (x ∷ seen) cs later h)) new

rounds-AreNew :
    (fuel : ℕ) (seen : List ℕ) (cats : List Category) → AreNew seen (rounds fuel seen cats).listed
rounds-AreNew zero seen cats = unfold rounds in tt
rounds-AreNew (suc fuel) seen cats =
    rounds_cases (λ (m : Merged). AreNew seen m.listed) fuel seen cats (λ e. tt)
      (λ h hs e.
        round-AreNew seen cats _ (rounds-AreNew fuel (round seen cats).seen (round seen cats).left))

-- However the categories overlap, the merged search lists each issue once.
pub interleave-AreNew : (found : List Category) → AreNew [] (interleave found)
unfolding interleave merge_rounds
interleave-AreNew found = rounds-AreNew (suc (total found)) [] found
