-- ===== src/Catalog/ForYou.antt =====
-- The For you feed (backend/internal/issue/foryou.go): chunks of the shuffled walk, each in a drawn
-- order, and pages that are slices of them. The store of drawn chunks is left out: it answers what
-- would be drawn.
pub mod Chunks
pub mod Walk
pub mod Pages
pub mod Reading
use skill_issues.Prelude.{
  ℕ, zero, suc, ◌+◌, ◌-◌, ◌%◌, max, Bool, true, false, not, ◌&&◌, Option, none, some, List, [], ◌∷◌,
  ◌++◌, map, ltb, leb, if◌then◌else◌, take, drop, length,
}
use skill_issues.Prelude.Int.{ℤ, pos, negsuc}
use skill_issues.Prelude.Sort.{sort_stable}
use skill_issues.Catalog.Shuffle.{Slot, Position, Budget, shuffle_walk}

-- What a For you cursor says: where the chunk's walk began, how far into its order the page reached,
-- the key at which the whole walk began, and whether it has gone round the end.
pub record Spot : Type 0 where
  pub seed : ℕ
  pub start : ℕ
  pub key : ℤ
  pub id : ℕ
  pub offset : ℕ
  pub wrapped : Bool

pub record Chunk : Type 0 where
  pub ids : List ℕ
  pub next_key : ℤ
  pub next_id : ℕ
  pub next_wrapped : Bool
  pub is_end : Bool

-- A negative key is before the top.
abbrev pub position_of : ℤ → ℕ → Position
position_of (pos key) id = some (key, id)
position_of (negsuc n) id = none

abbrev pub from_of : Spot → Position
from_of at = position_of at.key at.id

-- The hits before the walk's start, and whether there was one at it.
abbrev pub take_before : ℕ → List Slot → List Slot × Bool
take_before start [] = ([], false)
take_before start (s ∷ ss) =
    let (kept, cut) = take_before start ss in
    if leb start s.key then ([], true) else (s ∷ kept, cut)

abbrev pub has_reached : ℕ → Position → Bool
has_reached start none = false
has_reached start (some (key, repo)) = leb start key

abbrev pub unless : Bool → Position → Position
unless b next = if b then none else next

-- The two fields of a chunk's next position, for a walk that is round the end.
abbrev pub wrapped_chunk : List ℕ → Position → Chunk
wrapped_chunk ids none = record {
  ids = ids;
  next_key = pos 0;
  next_id = 0;
  next_wrapped = false;
  is_end = true;
}
wrapped_chunk ids (some (key, repo)) = record {
  ids = ids;
  next_key = pos key;
  next_id = repo;
  next_wrapped = true;
  is_end = false;
}

-- And for one that is not: past the end of the order it goes on at the top.
abbrev pub first_chunk : List ℕ → Position → Chunk
first_chunk ids none = record {
  ids = ids;
  next_key = negsuc 0;
  next_id = 0;
  next_wrapped = true;
  is_end = false;
}
first_chunk ids (some (key, repo)) = record {
  ids = ids;
  next_key = pos key;
  next_id = repo;
  next_wrapped = false;
  is_end = false;
}

abbrev pub issues_of : List Slot → List ℕ
issues_of hits = map (λ (s : Slot). s.issue) hits

abbrev pub max_chunks_per_page : ℕ
max_chunks_per_page = 4

-- `above seed a b` says that the key drawn for issue `a` is greater than that of `b`: the score and the
-- noise are floating-point numbers.
module _ (above : ℕ → ℕ → ℕ → Bool) (index : List Slot) (budget : Budget) (pool : ℕ) where
  abbrev pub drawn_before : ℕ → ℕ → ℕ → Bool
  drawn_before seed a b =
      if above seed a b then true else (if above seed b a then false else ltb a b)

  -- `drawForYou`
  unfoldable pub draw_for_you : ℕ → List ℕ → List ℕ
  draw_for_you seed ids = sort_stable (drawn_before seed) ids

  -- `drawChunk`
  unfoldable pub draw_chunk : Spot → Chunk
  unfolding draw_for_you
  draw_chunk at =
      let (hits, next) = shuffle_walk index budget (from_of at) (max pool 1) in
      let (kept, cut) = take_before at.start hits in
      if at.wrapped
      then wrapped_chunk (draw_for_you at.seed (issues_of kept))
          (unless (if cut then true else has_reached at.start next) next)
      else first_chunk (draw_for_you at.seed (issues_of hits)) next

  abbrev pub next_spot : Spot → Chunk → Spot
  next_spot at c = record at {
    key = c.next_key;
    id = c.next_id;
    offset = 0;
    wrapped = c.next_wrapped;
  }

  -- The loop of `forYouPage`, over at most so many chunks.
  unfoldable pub fill_page : ℕ → ℕ → List ℕ → Spot → List ℕ × Option Spot
  unfolding draw_chunk
  fill_page zero limit page at = (page, some at)
  fill_page (suc chunks) limit page at =
      let c = draw_chunk at in
      let taken = take (limit - length page) (drop at.offset c.ids) in
      let rest = fill_page chunks limit (page ++ taken) (next_spot at c) in
      if leb limit (length page)
      then (page, some at)
      else (if ltb (at.offset + length taken) (length c.ids)
          then (page ++ taken, some (record at { offset = at.offset + length taken }))
          else (if c.is_end then (page ++ taken, none) else rest))

  -- The walk of a day begins just before its start.
  abbrev pub first_spot : ℕ → Spot
  first_spot seed =
      let start = seed % 2147483647 in
      record { seed = seed; start = start; key = pos start; id = 0; offset = 0; wrapped = false }

  abbrev pub spot_or_first : ℕ → Option Spot → Spot
  spot_or_first seed none = first_spot seed
  spot_or_first seed (some at) = at

  -- `forYouPage`, of a page of at least one: the ids that it shows and the next cursor.
  unfoldable pub for_you_page : ℕ → ℕ → Option Spot → List ℕ × Option Spot
  unfolding fill_page
  for_you_page seed limit after = fill_page max_chunks_per_page limit [] (spot_or_first seed after)
