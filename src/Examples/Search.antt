-- ===== src/Examples/Search.antt =====
-- Searches merged (`interleave`, backend/internal/issue/search_categories.go).
use skill_issues.Prelude.{ℕ, ◌≡◌, refl, true, List, [], ◌∷◌, contains, All}
use skill_issues.Search.Interleave.{Category, SearchHit, merge_rounds, interleave, hit_ids, holds}
use skill_issues.Search.Interleave.Distinct.{AreNew, interleave-AreNew}
use skill_issues.Search.Interleave.Complete.{offers, interleave_complete}

-- Issue 2 is second for the repository category and first for the title category.
abbrev overlapping : List Category
overlapping =
    record { number = 0; ids = 1 ∷ 2 ∷ 5 ∷ [] }
    ∷ record { number = 1; ids = 2 ∷ 3 ∷ [] }
    ∷ record { number = 2; ids = 1 ∷ 4 ∷ [] }
    ∷ []

-- It is listed under the title category, which reaches it at the first rank.
first_rank :
    interleave overlapping
    ≡ record { id = 1; category = 0 }
      ∷ record { id = 2; category = 1 }
      ∷ record { id = 4; category = 2 }
      ∷ record { id = 5; category = 0 }
      ∷ record { id = 3; category = 1 }
      ∷ []
unfolding interleave merge_rounds
first_rank = refl

interleave-AreNew_example : AreNew [] (interleave overlapping)
interleave-AreNew_example = interleave-AreNew overlapping

interleave_complete_example :
    ((merge_rounds overlapping).ended ≡ true)
    × ((id : ℕ)
        → holds overlapping id ≡ true
        → contains (hit_ids (interleave overlapping)) id ≡ true)
    × All (λ (h : SearchHit). offers overlapping h.category h.id ≡ true) (interleave overlapping)
interleave_complete_example = interleave_complete overlapping
