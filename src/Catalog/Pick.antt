-- ===== src/Catalog/Pick.antt =====
-- `pickFrom` (backend/internal/issue/pick.go). `browse` is the catalog's query for a page of the
-- shuffled feed: it fails, or answers ids and the cursor of the next page.
pub mod Fresh
use skill_issues.Prelude.{
  ℕ, zero, suc, ◌+◌, Bool, true, false, not, ◌&&◌, Option, none, some, List, [], ◌∷◌, ◌++◌, ltb,
  leb, if◌then◌else◌, length, contains,
}
use skill_issues.Prelude.Int.{ℤ, pos, ltb_ℤ}

-- A place in the shuffled order.
pub record Cursor : Type 0 where
  pub key : ℤ
  pub id : ℕ

pub record Page : Type 0 where
  pub ids : List ℕ
  pub next : Option Cursor

-- What the walk has taken, and the ids that it skips.
pub record Picked : Type 0 where
  pub out : List ℕ
  pub exclude : List ℕ

unfoldable pub take_new : ℕ → List ℕ → Picked → Picked
take_new n [] p = p
take_new n (x ∷ xs) p = take_new n xs (
    if ltb (length p.out) n && not (contains p.exclude x)
    then record { out = p.out ++ (x ∷ []); exclude = x ∷ p.exclude }
    else p)

pub data Next : Type 0 where
  finished : Next
  goes_on : Option Cursor → Bool → Next

-- The switch at the end of a page: the walk wraps round once, and ends where it began.
abbrev pub next_of : ℤ → Bool → Option Cursor → Next
next_of start true none = finished
next_of start false none = goes_on none true
next_of start true (some c) = if ltb_ℤ c.key start then goes_on (some c) true else finished
next_of start false (some c) = goes_on (some c) false

module _ (browse : Option Cursor → Option Page) (n : ℕ) (start : ℤ) where
  -- The loop over at most `pages` pages; `none` is the query's error.
  unfoldable pub pick_pages : ℕ → Option Cursor → Bool → Picked → Option Picked
  unfolding take_new
  pick_pages zero after wrapped p = some p
  pick_pages (suc pages) after wrapped p =
      if leb n (length p.out) then some p else elim (browse after) [
        | none ↦ none
        | some page ↦
            let q = take_new n page.ids p in
            elim (next_of start wrapped page.next) [
              | finished ↦ some q
              | goes_on c w ↦ pick_pages pages c w q
            ]
      ]

  unfoldable pub pick_from : ℕ → List ℕ → Option Picked
  unfolding pick_pages
  pick_from max_pages exclude =
      pick_pages max_pages (some (record { key = start; id = 0 })) false
        (record { out = []; exclude = exclude })
