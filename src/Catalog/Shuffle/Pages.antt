-- ===== src/Catalog/Shuffle/Pages.antt =====
-- Reading the shuffled feed page after page (backend/internal/issue/shuffle.go), each page after the
-- cursor of the one before.
use skill_issues.Prelude.{
  ℕ, zero, suc, ◌≤◌, ◌<◌, ◌≡◌, refl, ap, ◌∙◌, none, some, List, [], ◌++◌, keep, length,
  length-keep-le, arith,
}
use skill_issues.Catalog.Shuffle.{Slot, Position, is_after, has_issue, Budget, shuffle_walk}
use skill_issues.Catalog.Shuffle.Order.{IsOrdered, keep-top}
use skill_issues.Catalog.Shuffle.Splits.{hits_after, rest_after, shuffle_walk-IsCut}
use skill_issues.Catalog.Shuffle.Progress.{left, Moves, shuffle_walk-Moves}

-- The hits of up to `pages` pages from a position on; each request has its own budget and page size.
abbrev pub read_pages : ℕ → List Slot → (ℕ → Budget) → (ℕ → ℕ) → Position → List Slot
read_pages zero index budgets limits pos = []
read_pages (suc pages) index budgets limits pos =
    let (page, next) = shuffle_walk index (budgets pages) pos (limits pages) in
    page ++ elim next [ none ↦ [] | some p ↦ read_pages pages index budgets limits (some p) ]

-- The feed as a promise: the best issue of each repository that has one, in the shuffled order.
abbrev pub feed : List Slot → List Slot
feed index = keep has_issue index

module _ (index : List Slot) (o : IsOrdered index) (budgets : ℕ → Budget) (limits : ℕ → ℕ)
    (l : (n : ℕ) → 0 < limits n) where
  pages_next :
      (pages : ℕ) (page : List Slot) (next : Position) (n : ℕ)
      → ((pos : Position)
          → left index pos < pages
          → read_pages pages index budgets limits pos ≡ hits_after index pos)
      → n ≤ pages
      → Moves index n next
      → page ++ elim next [ none ↦ [] | some p ↦ read_pages pages index budgets limits (some p) ]
        ≡ page ++ rest_after index next
  pages_next pages page none n f h m = refl
  pages_next pages page (some p) n f h m = ap (λ r. page ++ r) (f (some p) (omega (arith, h, m)))

  pages_from :
      (pages : ℕ) (pos : Position)
      → left index pos < pages
      → read_pages pages index budgets limits pos ≡ hits_after index pos
  pages_from zero pos h = ground (arith, h)
  pages_from (suc pages) pos h =
      let walked = shuffle_walk index (budgets pages) pos (limits pages) in
      pages_next pages walked.0 walked.1 (left index pos) (pages_from pages) (omega (arith, h))
        (shuffle_walk-Moves index o (budgets pages) pos (limits pages) (l pages))
      ∙ (shuffle_walk-IsCut index (budgets pages) pos (limits pages) o (l pages)).0

  -- Read from the top, page after page until there is no cursor, the feed of an index in strict
  -- order is the best issue of each repository that has one, once and in order, whatever page sizes
  -- (of at least 1), walk bounds and time budgets the requests have; one page more than there are
  -- repositories is enough to reach the end.
  pub read_pages-feed : read_pages (suc (length index)) index budgets limits none ≡ feed index
  read_pages-feed =
      pages_from (suc (length index)) none (omega (arith, length-keep-le (is_after none) index))
      ∙ ap (keep has_issue) (keep-top index)
