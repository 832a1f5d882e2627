-- ===== src/Catalog/ForYou/Reading.antt =====
-- A For you walk, read to its end (backend/internal/issue/foryou.go): every repository's best issue
-- once.
use skill_issues.Prelude.{
  ℕ, zero, suc, ◌+◌, ◌*◌, ◌≤◌, ◌<◌, ◌≡◌, refl, sym, ap, ◌∙◌, subst, Bool, true, false, Option, none,
  some, List, [], ◌∷◌, ◌++◌, if_true, if_false, keep, length, length-append, length-keep-le, All,
  All-keep, ◌%◌, arith, Bool-cases, inl, inr,
}
use mathlib.Core.List.{Perm, perm_middle}
use mathlib.Core.List.Perm
use skill_issues.Catalog.Shuffle.{Slot, Budget, is_after, has_issue}
use skill_issues.Catalog.Shuffle.Order.{IsOrdered, keep_comm}
use skill_issues.Catalog.Shuffle.Splits.{hits_after}
use skill_issues.Catalog.Shuffle.Pages.{feed}
use skill_issues.Catalog.ForYou.{
  Spot, issues_of, fill_page, max_chunks_per_page, first_spot, spot_or_first, for_you_page,
}
use skill_issues.Catalog.ForYou.Chunks.{is_early}
use skill_issues.Catalog.ForYou.Walk.{to_come, chunks_left, issues_of-append, walk_from}
use skill_issues.Catalog.ForYou.Pages.{LeavesWithin, page-IsSlice, walk_some}

-- The ids of up to `pages` pages, each after the cursor of the one before and of its own size.
abbrev pub read_walk :
    (ℕ → ℕ → ℕ → Bool) → List Slot → Budget → ℕ → ℕ → (ℕ → ℕ) → ℕ → Option Spot → List ℕ
read_walk above index budget pool seed limits zero after = []
read_walk above index budget pool seed limits (suc pages) after =
    let (page, next) = for_you_page above index budget pool seed (limits pages) after in
    page ++ elim next [
      | none ↦ []
      | some at ↦ read_walk above index budget pool seed limits pages (some at)
    ]

module _ (above : ℕ → ℕ → ℕ → Bool) (index : List Slot) (budget : Budget) (pool seed : ℕ)
    (limits : ℕ → ℕ) (positive : (n : ℕ) → 0 < limits n) where
  abbrev shown_ids : ℕ → Option Spot → List ℕ
  shown_ids pages after = read_walk above index budget pool seed limits pages after

  next_pages :
      (pages bound : ℕ) (page rest : List ℕ) (next : Option Spot)
      → ((at : Spot) (rest : List ℕ)
          → LeavesWithin above index budget pool bound rest (some at)
          → shown_ids pages (some at) ≡ rest)
      → LeavesWithin above index budget pool bound rest next
      → page ++ elim next [ none ↦ [] | some at ↦ shown_ids pages (some at) ] ≡ page ++ rest
  next_pages pages bound page rest none f h = ap (λ r. page ++ r) (sym h)
  next_pages pages bound page rest (some at) f h = ap (λ r. page ++ r) (f at rest h)

  read_from :
      (pages bound : ℕ) (after : Option Spot) (rest : List ℕ)
      → bound < pages
      → LeavesWithin above index budget pool bound rest
          (some (spot_or_first above index budget pool seed after))
      → shown_ids pages after ≡ rest
  unfolding for_you_page
  read_from zero bound after rest l h = ground (arith, l)
  read_from (suc pages) zero after rest l (n, (ids, (w, (offset, (e, h))))) =
      ground (arith, walk_some above index budget pool w, h)
  read_from (suc pages) (suc bound) after rest l (n, (ids, (w, (offset, (e, h))))) =
      let at = spot_or_first above index budget pool seed after in
      let filled = fill_page above index budget pool max_chunks_per_page (limits pages) [] at in
      let (left_over, (whole, within)) =
        page-IsSlice above index budget pool 3 (limits pages) at n bound ids w offset
          (positive pages) (omega (arith, h, ap length e)) in
      next_pages pages bound filled.0 left_over filled.1
        (λ at rest k. read_from pages bound (some at) rest (omega (arith, l)) k) within
      ∙ (whole ∙ e)

  both :
      (xs xs' ys ys' : List Slot)
      → xs ≡ xs'
      → ys ≡ ys'
      → issues_of xs ++ issues_of ys ≡ issues_of xs' ++ issues_of ys'
  both xs xs' ys ys' e f = λ i. issues_of (e i) ++ issues_of (f i)

  split_early :
      (start : ℕ) (s : Slot) (ss : List Slot)
      → is_early start s ≡ true
      → issues_of (keep (is_after (some (start, 0))) (s ∷ ss))
          ++ issues_of (keep (is_early start) (s ∷ ss))
        ≡ issues_of (keep (is_after (some (start, 0))) ss)
          ++ (s.issue ∷ issues_of (keep (is_early start) ss))
  split_early start s ss e =
      both (keep (is_after (some (start, 0))) (s ∷ ss)) (keep (is_after (some (start, 0))) ss)
        (keep (is_early start) (s ∷ ss)) (s ∷ keep (is_early start) ss)
        (if_false (is_after (some (start, 0)) s) _ _ (ground (arith, e)))
        (if_true (is_early start s) _ _ e)

  split_late :
      (start : ℕ) (s : Slot) (ss : List Slot)
      → is_early start s ≡ false
      → 0 < s.repo
      → issues_of (keep (is_after (some (start, 0))) (s ∷ ss))
          ++ issues_of (keep (is_early start) (s ∷ ss))
        ≡ s.issue
          ∷ (issues_of (keep (is_after (some (start, 0))) ss)
              ++ issues_of (keep (is_early start) ss))
  split_late start s ss e p =
      both (keep (is_after (some (start, 0))) (s ∷ ss)) (s ∷ keep (is_after (some (start, 0))) ss)
        (keep (is_early start) (s ∷ ss)) (keep (is_early start) ss)
        (if_true (is_after (some (start, 0)) s) _ _ (ground (arith, e, p)))
        (if_false (is_early start s) _ _ e)

  -- The slots at or past the start, and then those before it, are all of them.
  around :
      (start : ℕ) (slots : List Slot)
      → All (λ (s : Slot). 0 < s.repo) slots
      → Perm
          (issues_of (keep (is_after (some (start, 0))) slots)
            ++ issues_of (keep (is_early start) slots))
          (issues_of slots)
  around start [] h = Perm.refl []
  around start (s ∷ ss) h =
      let late = issues_of (keep (is_after (some (start, 0))) ss) in
      let early = issues_of (keep (is_early start) ss) in
      elim (Bool-cases (is_early start s)) [
        | inl e ↦
            subst (λ r. Perm r (s.issue ∷ issues_of ss)) (sym (split_early start s ss e))
              (Perm.trans (perm_middle late early) (Perm.cons s.issue (around start ss h.1)))
        | inr e ↦
            subst (λ r. Perm r (s.issue ∷ issues_of ss)) (sym (split_late start s ss e h.0))
              (Perm.cons s.issue (around start ss h.1))
      ]

  -- What a walk has to come to at its first spot.
  abbrev whole_walk : List Slot
  whole_walk = to_come above index budget pool (first_spot above index budget pool seed)

  whole_walk-perm :
      All (λ (s : Slot). 0 < s.repo) index → Perm (issues_of whole_walk) (issues_of (feed index))
  whole_walk-perm h =
      let start = seed % 2147483647 in
      subst (λ r. Perm r (issues_of (feed index)))
        (sym (
          issues_of-append above index budget pool (hits_after index (some (start, 0)))
            (keep (is_early start) (feed index))
          ∙ ap (λ r. issues_of r ++ issues_of (keep (is_early start) (feed index)))
              (keep_comm has_issue (is_after (some (start, 0))) index)))
        (around start (feed index) (All-keep (λ (s : Slot). 0 < s.repo) has_issue index h))

  whole_walk-length : All (λ (s : Slot). 0 < s.repo) index → length whole_walk ≤ 2 * length index
  whole_walk-length h =
      let start = seed % 2147483647 in
      omega (
        arith,
        length-append (hits_after index (some (start, 0))) (keep (is_early start) (feed index)),
        length-keep-le has_issue (keep (is_after (some (start, 0))) index),
        length-keep-le (is_after (some (start, 0))) index,
        length-keep-le (is_early start) (feed index),
        length-keep-le has_issue index,
      )

  -- Read from its beginning, page after page until there is no cursor, the For you walk of an index
  -- in strict order, whose repositories have positive ids, shows the best issue of each repository
  -- that has one exactly once, in some order: whatever the seed, the drawn keys, the page sizes (of
  -- at least 1), the chunk size, and the bounds of a chunk's walk, when these bounds and the index
  -- stay the same. So many pages are enough to reach the end.
  pub read_walk-perm :
      IsOrdered index
      → All (λ (s : Slot). 0 < s.repo) index
      → Perm (shown_ids (4 * length index + 4) none) (issues_of (feed index))
  read_walk-perm o h =
      let at = first_spot above index budget pool seed in
      let (n, (ids, (walk, (bound, (perm, same))))) =
        walk_from above index budget pool o (suc (chunks_left above index budget pool at)) at
          (omega arith) in
      subst (λ r. Perm r (issues_of (feed index)))
        (sym (
          read_from (4 * length index + 4) (length ids + n) none ids
            (omega (
              arith,
              bound,
              same,
              whole_walk-length h,
              length-keep-le (is_after (some (at.start, 0))) index,
            ))
            (n, (ids, (walk, (omega arith, (refl, omega arith)))))))
        (Perm.trans perm (whole_walk-perm h))
