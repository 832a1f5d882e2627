-- ===== src/Examples/Pick.antt =====
-- A pick of two issues from a feed of three pages, with one issue excluded.
use skill_issues.Prelude.{◌≡◌, refl, Option, none, some, [], ◌∷◌}
use skill_issues.Prelude.Int.{pos}
use skill_issues.Catalog.Pick.{Cursor, Page, pick_from, pick_pages, take_new}
use skill_issues.Catalog.Pick.Fresh.{PickOrError, pick_from-IsPick}

-- The page from key 5 on is the last one; the top of the order has two issues.
abbrev browse : Option Cursor → Option Page
browse none = some (record { ids = 7 ∷ 8 ∷ []; next = some (record { key = pos 9; id = 2 }) })
browse (some c) = some (record { ids = 4 ∷ 7 ∷ []; next = none })

wraps :
    pick_from browse 2 (pos 5) 3 (4 ∷ [])
    ≡ some (record { out = 7 ∷ 8 ∷ []; exclude = 8 ∷ 7 ∷ 4 ∷ [] })
unfolding pick_from pick_pages take_new
wraps = refl

pick_from-IsPick_example : PickOrError 2 (4 ∷ []) (pick_from browse 2 (pos 5) 3 (4 ∷ []))
pick_from-IsPick_example = pick_from-IsPick browse 2 (pos 5) 3 (4 ∷ [])
