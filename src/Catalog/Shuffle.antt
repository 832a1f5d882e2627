-- ===== src/Catalog/Shuffle.antt =====
-- The shuffled feed (backend/internal/issue/shuffle.go). `index` is the list of the eligible
-- repositories in the order of (shuffle_key, id), each with its best open issue that passes the
-- filters, or 0: what `shuffleBatch` reads in batches.
pub mod Order
pub mod Splits
pub mod Progress
pub mod Pages
use skill_issues.Prelude.{
  ℕ, zero, suc, ◌+◌, ◌-◌, ◌*◌, min, max, Bool, true, false, not, ◌&&◌, ◌||◌, Option, none, some,
  List, [], ◌∷◌, ◌++◌, ltb, leb, ◌==◌, if◌then◌else◌, keep, take, length,
}

-- `shuffleHit`
pub record Slot : Type 0 where
  pub key : ℕ
  pub repo : ℕ
  pub issue : ℕ

-- A cursor's Key and ID; none is the top.
abbrev pub Position : Type 0
Position = Option (ℕ × ℕ)

abbrev pub at_slot : Slot → Position
at_slot s = some (s.key, s.repo)

-- `(r.shuffle_key, r.id) > (key, repo)`
abbrev pub is_after : Position → Slot → Bool
is_after none s = true
is_after (some (key, repo)) s = ltb key s.key || (key == s.key && ltb repo s.repo)

abbrev pub has_issue : Slot → Bool
has_issue s = not (s.issue == 0)

-- `shuffleBatch`
abbrev pub shuffle_batch : List Slot → Position → ℕ → List Slot
shuffle_batch index pos batch = take batch (keep (is_after pos) index)

abbrev pub last_position : Position → List Slot → Position
last_position pos [] = pos
last_position pos (s ∷ ss) = last_position (at_slot s) ss

-- `shuffleFromMatches`
unfoldable pub shuffle_from_matches : List Slot → Position → ℕ → List Slot × Position
shuffle_from_matches index pos limit =
    let hits = take limit (keep (is_after pos) (keep has_issue index)) in
    (hits, if ltb (length hits) limit then none else last_position none hits)

-- The page is full, or the batch is used up.
pub data Taken : Type 0 where
  full : List Slot → Position → Taken
  short : List Slot → Position → Taken

abbrev pub add_hit : List Slot → Slot → List Slot
add_hit hits s = if has_issue s then hits ++ (s ∷ []) else hits

-- The loop over a batch.
abbrev pub take_slots : ℕ → List Slot → Position → List Slot → Taken
take_slots limit hits pos [] = short hits pos
take_slots limit hits pos (s ∷ ss) =
    let rest = take_slots limit (add_hit hits s) (at_slot s) ss in
    if has_issue s && (length (add_hit hits s) == limit)
    then full (add_hit hits s) (at_slot s)
    else rest

abbrev pub max_shuffle_batch : ℕ
max_shuffle_batch = 2000

-- `stopHere`: without a position, there is no cursor to go on from.
abbrev pub stop_here : List Slot → Position → List Slot × Position
stop_here hits pos = (hits, pos)

-- What a request brings to a walk: the bound on the walk, whether its time is over once so many
-- repositories are walked, and whether the query of the matches runs out of time.
pub record Budget : Type 0 where
  pub max_repos : ℕ
  pub is_late : ℕ → Bool
  pub matches_late : Bool

abbrev pub bounded_batch : ℕ → ℕ → ℕ → ℕ → ℕ
bounded_batch max_repos walked limit batch =
    if ltb 0 max_repos then min batch (max (max_repos - walked) (2 * limit)) else batch

abbrev pub go_on : Taken → (List Slot → Position → List Slot × Position) → List Slot × Position
go_on (full page cursor) next = (page, cursor)
go_on (short page cursor) next = next page cursor

-- A next position of none is the end. `fuel` bounds the number of batches.
unfoldable pub walk_loop :
    ℕ → List Slot → Budget → ℕ → List Slot → Position → ℕ → ℕ → List Slot × Position
unfolding shuffle_from_matches
walk_loop zero index b limit hits pos walked batch = ([], none)
walk_loop (suc fuel) index b limit hits pos walked batch =
    let size = bounded_batch b.max_repos walked limit batch in
    let slots = shuffle_batch index pos size in
    let (rest, next) = shuffle_from_matches index pos (limit - length hits) in
    if ltb 0 walked && b.is_late walked
    then stop_here hits pos
    else (if ltb 0 b.max_repos && leb b.max_repos walked
        then (if b.matches_late then stop_here hits pos else (hits ++ rest, next))
        else go_on (take_slots limit hits pos slots) (λ page cursor.
          if ltb (length slots) size
          then (page, none)
          else walk_loop fuel index b limit page cursor (walked + length slots)
              (min (size * 2) max_shuffle_batch)))

-- `shuffleWalk`
unfoldable pub shuffle_walk : List Slot → Budget → Position → ℕ → List Slot × Position
unfolding walk_loop
shuffle_walk index b pos limit = walk_loop (suc (length index)) index b limit [] pos 0 (2 * limit)
