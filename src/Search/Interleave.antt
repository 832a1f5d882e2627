-- ===== src/Search/Interleave.antt =====
-- `interleave` (backend/internal/issue/search_categories.go). A category's cursor `next[c]` is the
-- list of its ids from there on; a category goes by its number in `matchCategories`.
mod Steps
pub mod Distinct
pub mod Complete
use skill_issues.Prelude.{
  ℕ, zero, suc, ◌+◌, Bool, true, false, List, [], ◌∷◌, ◌++◌, map, contains, if◌then◌else◌, length,
}

pub record Category : Type 0 where
  pub number : ℕ
  pub ids : List ℕ

pub record SearchHit : Type 0 where
  pub id : ℕ
  pub category : ℕ

-- `for next[c] < len(ids) && seen[ids[next[c]]] { next[c]++ }`
abbrev pub skip_seen : List ℕ → List ℕ → List ℕ
skip_seen seen [] = []
skip_seen seen (x ∷ xs) = if contains seen x then skip_seen seen xs else x ∷ xs

-- The loop over the categories: what it took, and what is left.
pub record Round : Type 0 where
  pub hits : List SearchHit
  pub seen : List ℕ
  pub left : List Category

unfoldable pub round : List ℕ → List Category → Round
round seen [] = record { hits = []; seen = seen; left = [] }
round seen (c ∷ cs) = elim (skip_seen seen c.ids) [
  | [] ↦ let r = round seen cs in record r { left = record c { ids = [] } ∷ r.left }
  | x ∷ xs ↦
      let r = round (x ∷ seen) cs in
      record {
        hits = record { id = x; category = c.number } ∷ r.hits;
        seen = r.seen;
        left = record c { ids = xs } ∷ r.left;
      }
]

-- The result of the loop of rounds. `ended`: the loop left by its own test, and not for want of fuel.
pub record Merged : Type 0 where
  pub listed : List SearchHit
  pub ended : Bool

abbrev pub then_listed : List SearchHit → Merged → Merged
then_listed hs m = record m { listed = hs ++ m.listed }

-- `for more := true; more; { … }`, with fuel: a round that takes nothing is the last.
unfoldable pub rounds : ℕ → List ℕ → List Category → Merged
unfolding round
rounds zero seen cats = record { listed = []; ended = false }
rounds (suc fuel) seen cats =
    let r = round seen cats in
    elim r.hits [
      | [] ↦ record { listed = []; ended = true }
      | h ∷ hs ↦ then_listed (h ∷ hs) (rounds fuel r.seen r.left)
    ]

-- How many ids the categories hold together.
abbrev pub total : List Category → ℕ
total [] = 0
total (c ∷ cs) = length c.ids + total cs

-- Every round but the last takes an id, so one round more than there are ids is enough.
unfoldable pub merge_rounds : List Category → Merged
unfolding rounds
merge_rounds found = rounds (suc (total found)) [] found

unfoldable pub interleave : List Category → List SearchHit
unfolding merge_rounds
interleave found = (merge_rounds found).listed

abbrev pub hit_ids : List SearchHit → List ℕ
hit_ids [] = []
hit_ids (h ∷ hs) = h.id ∷ hit_ids hs

-- The ids of all categories.
abbrev pub holds : List Category → ℕ → Bool
holds [] id = false
holds (c ∷ cs) id = if contains c.ids id then true else holds cs id
