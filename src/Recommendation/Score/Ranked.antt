-- ===== src/Recommendation/Score/Ranked.antt =====
-- What a recommendation holds (backend/internal/recommendation/score.go).
use skill_issues.Prelude.{
  ℕ, zero, suc, ◌≤◌, ◌<◌, min, ◌≡◌, refl, sym, ap, subst, ◌∙◌, false, List, [], ◌∷◌, ◌++◌, arith,
  ltb, if◌then◌else◌, length, length-take, length-map, take, drop, keep, All, All-map,
}
use mathlib.Core.List.{Perm}
use skill_issues.Prelude.Int.{ℤ, pos, negsuc, pos_part}
use skill_issues.Prelude.Sort.{
  sort_stable, sort_stable-perm, sort_stable-IsSorted, length-sort_stable, IsSorted,
}
use skill_issues.Prelude.Text.{Text}
use skill_issues.Recommendation.Score.{
  Candidate, FullProfile, Scored, set_of, pool_of, or_all, is_preferred, score_item, scores_more,
  limit_of_three, scored_pool, score_candidates,
}

-- Every element of the one list scores at least as much as every element of the other.
abbrev pub OutScores : List Scored → List Scored → Type 0
OutScores xs ys = All (λ (x : Scored). All (λ (y : Scored). y.score ≤ x.score) ys) xs

All-drop {ℓ κ} : {A : Type ℓ} (P : A → Type κ) (n : ℕ) (xs : List A) → All P xs → All P (drop n xs)
All-drop P zero xs h = h
All-drop P (suc n) [] h = h
All-drop P (suc n) (x ∷ xs) h = All-drop P n xs h.1

All-take {ℓ κ} : {A : Type ℓ} (P : A → Type κ) (n : ℕ) (xs : List A) → All P xs → All P (take n xs)
All-take P zero xs h = tt
All-take P (suc n) [] h = h
All-take P (suc n) (x ∷ xs) h = (h.0, All-take P n xs h.1)

outscores-take :
    (n : ℕ) (xs : List Scored) → IsSorted scores_more xs → OutScores (take n xs) (drop n xs)
outscores-take zero xs h = tt
outscores-take (suc n) [] h = tt
outscores-take (suc n) (x ∷ xs) h = (
  All-drop (λ (y : Scored). y.score ≤ x.score) n xs
      (All-map (λ y. scores_more y x ≡ false) (λ y. y.score ≤ x.score) (λ y e. ground (arith, e)) xs
        h.0),
  outscores-take n xs h.1,
)

sort_stable-IsSorted_scored : (xs : List Scored) → IsSorted scores_more (sort_stable scores_more xs)
sort_stable-IsSorted_scored =
    sort_stable-IsSorted scores_more (λ a b h. ground (arith, h))
      (λ a b c h k. ground (arith, h, k))

take-drop : (n : ℕ) (xs : List Scored) → take n xs ++ drop n xs ≡ xs
take-drop zero xs = refl
take-drop (suc n) [] = refl
take-drop (suc n) (x ∷ xs) = ap (◌∷◌ x) (take-drop n xs)

or_all-found : (xs cs : List Candidate) → 0 < length cs → 0 < length (or_all xs cs)
or_all-found [] cs h = h
or_all-found (x ∷ xs) cs h = omega arith

pool_of-found :
    (u : FullProfile) (preferred : List Text) (cs : List Candidate)
    → 0 < length cs
    → 0 < length (pool_of u preferred cs)
unfolding pool_of
pool_of-found u [] cs h = h
pool_of-found u (p ∷ ps) cs h = or_all-found (keep (is_preferred u (p ∷ ps)) cs) cs h

scored_pool-found :
    (u : FullProfile) (cs : List Candidate) → 0 < length cs → 0 < length (scored_pool u cs)
unfolding scored_pool
scored_pool-found u cs h =
    let preferred = set_of u.preferred_languages in
    omega (
      arith,
      length-map (score_item u preferred) (pool_of u preferred cs),
      pool_of-found u preferred cs h,
    )

IsSorted-take :
    (n : ℕ) (xs : List Scored) → IsSorted scores_more xs → IsSorted scores_more (take n xs)
IsSorted-take zero xs h = tt
IsSorted-take (suc n) [] h = h
IsSorted-take (suc n) (x ∷ xs) h =
    (All-take (λ y. scores_more y x ≡ false) n xs h.0, IsSorted-take n xs h.1)

-- The limit where it is positive, and else 3.
abbrev pub places : ℤ → ℕ
places limit = let n = pos_part limit in if ltb 0 n then n else 3

places-positive : (limit : ℤ) → 0 < places limit
places-positive limit = ground arith

limit_of_three-places : (limit : ℤ) → limit_of_three limit ≡ places limit
limit_of_three-places (pos zero) = refl
limit_of_three-places (pos (suc n)) = ground arith
limit_of_three-places (negsuc n) = refl

-- Of the scored candidates, a recommendation holds the best ones, best first: it is sorted by score,
-- it holds as many as the limit allows, and the rest, which together with it is the whole pool in
-- some order, holds no candidate that scores more than one of it. The limit is 3 where it is not
-- positive.
pub score_candidates-IsSorted :
    (u : FullProfile) (candidates : List Candidate) (limit : ℤ)
    → IsSorted scores_more (score_candidates u candidates limit)
      × ((length (score_candidates u candidates limit)
            ≡ min (places limit) (length (scored_pool u candidates)))
          × ((rest : List Scored) × (Perm
                  (score_candidates u candidates limit ++ rest)
                  (scored_pool u candidates)
                × OutScores (score_candidates u candidates limit) rest)))
unfolding score_candidates
score_candidates-IsSorted u candidates limit =
    let n = limit_of_three limit in
    let pool = scored_pool u candidates in
    let sorted = sort_stable scores_more pool in
    let in_order = sort_stable-IsSorted_scored pool in
    (
      IsSorted-take n sorted in_order,
      (
        length-take n sorted
            ∙ (ap (min n) (length-sort_stable scores_more pool)
                ∙ ap (λ k. min k (length pool)) (limit_of_three-places limit)),
        (
          drop n sorted,
          (
            subst (λ xs. Perm xs pool) (sym (take-drop n sorted))
                (sort_stable-perm scores_more pool),
            outscores-take n sorted in_order,
          ),
        ),
      ),
    )

-- A person who has candidates gets a recommendation, whatever the preferences are: where no
-- candidate matches them, the filter is dropped.
pub score_candidates-found :
    (u : FullProfile) (candidates : List Candidate) (limit : ℤ)
    → 0 < length candidates
    → 0 < length (score_candidates u candidates limit)
score_candidates-found u candidates limit h =
    let counted = (score_candidates-IsSorted u candidates limit).1.0 in
    omega (arith, counted, places-positive limit, scored_pool-found u candidates h)
