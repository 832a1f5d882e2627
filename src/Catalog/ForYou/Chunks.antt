-- ===== src/Catalog/ForYou/Chunks.antt =====
-- What a chunk takes of the shuffled order (`drawChunk`, backend/internal/issue/foryou.go).
use skill_issues.Prelude.{
  ℕ, ◌≤◌, ◌<◌, ◌≡◌, refl, sym, ap, ◌∙◌, subst, Bool, true, false, none, some, List, [], ◌∷◌, ◌++◌,
  append-nil, ltb, leb, leb→le, if◌then◌else◌, keep, All, All-map, All-keep, All-keep_test, arith,
  if_cases,
}
use skill_issues.Catalog.Shuffle.{
  Slot, Position, Budget, at_slot, is_after, has_issue, shuffle_walk,
}
use skill_issues.Catalog.Shuffle.Order.{IsOrdered, keep-IsOrdered}
use skill_issues.Catalog.Shuffle.Splits.{hits_after, rest_after, shuffle_walk-IsCut}
use skill_issues.Catalog.ForYou.{take_before, has_reached, unless}

-- Before the start of the walk.
abbrev pub is_early : ℕ → Slot → Bool
is_early start s = ltb s.key start

none_early :
    (start : ℕ) (xs : List Slot)
    → All (λ (s : Slot). start ≤ s.key) xs
    → keep (is_early start) xs ≡ []
none_early start [] h = refl
none_early start (x ∷ xs) h = ground (arith, h.0, none_early start xs h.1)

-- After a slot at or past the start, no slot of the order is before it.
late_after :
    (start : ℕ) (s : Slot) (ss : List Slot)
    → start ≤ s.key
    → All (λ t. is_after (at_slot s) t ≡ true) ss
    → All (λ (t : Slot). start ≤ t.key) ss
late_after start s ss l h =
    All-map (λ t. is_after (at_slot s) t ≡ true) (λ (t : Slot). start ≤ t.key)
      (λ t a. ground (arith, l, a)) ss h

early_cons :
    (start : ℕ) (x : Slot) (xs ys : List Slot)
    → leb start x.key ≡ false
    → keep (is_early start) xs ≡ ys
    → keep (is_early start) (x ∷ xs) ≡ x ∷ ys
early_cons start x xs ys t h =
    if_cases (λ r. r ≡ x ∷ ys) (is_early start x) (x ∷ keep (is_early start) xs)
      (keep (is_early start) xs) (λ _. ap (λ r. x ∷ r) h) (λ e. ground (arith, t, e))

-- A cut gives the early slots of all that is left; without one, the hits are early.
abbrev pub CutsAt : ℕ → List Slot → List Slot → List Slot × Bool → Type 0
CutsAt start xs rest (kept, cut) =
    (cut ≡ true → keep (is_early start) (xs ++ rest) ≡ kept)
    × (cut ≡ false
        → (kept ≡ xs) × (keep (is_early start) (xs ++ rest) ≡ xs ++ keep (is_early start) rest))

pub take_before-cuts :
    (start : ℕ) (xs rest : List Slot)
    → IsOrdered (xs ++ rest)
    → CutsAt start xs rest (take_before start xs)
take_before-cuts start [] rest o = ((λ c. ground (arith, c)), (λ c. (refl, refl)))
take_before-cuts start (x ∷ xs) rest o =
    let found = take_before start xs in
    if_cases (CutsAt start (x ∷ xs) rest) (leb start x.key) ([], true) (x ∷ found.0, found.1)
      (λ t. (
        (λ _.
            none_early start (x ∷ (xs ++ rest))
              (leb→le start x.key t, late_after start x (xs ++ rest) (leb→le start x.key t) o.0)),
        (λ c. ground (arith, c)),
      ))
      (λ t.
        let (yes_cut, no_cut) = take_before-cuts start xs rest o.1 in
        (
          (λ c. early_cons start x (xs ++ rest) found.0 t (yes_cut c)),
          (λ c. (
            ap (λ r. x ∷ r) (no_cut c).0,
            early_cons start x (xs ++ rest) (xs ++ keep (is_early start) rest) t (no_cut c).1,
          )),
        ))

-- What is left after a position at or past the start has nothing before it.
pub reached-none :
    (index : List Slot) (start key repo : ℕ)
    → leb start key ≡ true
    → keep (is_early start) (hits_after index (some (key, repo))) ≡ []
reached-none index start key repo h = none_early start (hits_after index (some (key, repo))) (
    All-keep (λ (t : Slot). start ≤ t.key) has_issue (keep (is_after (some (key, repo))) index)
      (All-map (λ t. is_after (some (key, repo)) t ≡ true) (λ (t : Slot). start ≤ t.key)
        (λ t a. ground (arith, h, a)) (keep (is_after (some (key, repo))) index)
        (All-keep_test (is_after (some (key, repo))) index)))

module _ (index : List Slot) where
  cut_rest :
      (start : ℕ) (hits : List Slot) (next : Position) (found : List Slot × Bool)
      → CutsAt start hits (rest_after index next) found
      → keep (is_early start) (hits ++ rest_after index next)
        ≡ found.0
          ++ keep
              (is_early start)
              (rest_after index (unless (if found.1 then true else has_reached start next) next))
  cut_rest start hits next (kept, true) cuts = cuts.0 refl ∙ sym (append-nil kept)
  cut_rest start hits none (kept, false) cuts =
      (cuts.1 refl).1 ∙ ap (λ r. r ++ []) (sym (cuts.1 refl).0)
  cut_rest start hits (some (key, repo)) (kept, false) cuts =
      let (same, split) = cuts.1 refl in
      split
      ∙ (ap (λ r. r ++ keep (is_early start) (hits_after index (some (key, repo)))) (sym same)
          ∙ ap (λ r. kept ++ r)
              (if_cases
                (λ p.
                  keep (is_early start) (hits_after index (some (key, repo)))
                  ≡ keep (is_early start) (rest_after index p))
                (leb start key) none (some (key, repo)) (λ t. reached-none index start key repo t)
                (λ _. refl)))

module _ (index : List Slot) (budget : Budget) (o : IsOrdered index) where
  hits_after-IsOrdered : (pos : Position) → IsOrdered (hits_after index pos)
  hits_after-IsOrdered pos =
      keep-IsOrdered has_issue (keep (is_after pos) index) (keep-IsOrdered (is_after pos) index o)

  -- What a wrapped chunk keeps, and what it leaves to the next one.
  pub wrapped-cut :
      (start : ℕ) (pos : Position) (limit : ℕ)
      → 0 < limit
      → let (hits, next) = shuffle_walk index budget pos limit in
        let (kept, cut) = take_before start hits in
        let goes_on = unless (if cut then true else has_reached start next) next in
        keep (is_early start) (hits_after index pos)
        ≡ kept ++ keep (is_early start) (rest_after index goes_on)
  wrapped-cut start pos limit l =
      let walked = shuffle_walk index budget pos limit in
      let whole = (shuffle_walk-IsCut index budget pos limit o l).0 in
      let cuts =
        take_before-cuts start walked.0 (rest_after index walked.1)
          (subst IsOrdered (sym whole) (hits_after-IsOrdered pos)) in
      ap (keep (is_early start)) (sym whole)
      ∙ cut_rest index start walked.0 walked.1 (take_before start walked.0) cuts
