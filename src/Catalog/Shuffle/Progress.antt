-- ===== src/Catalog/Shuffle/Progress.antt =====
-- A page's cursor leaves fewer repositories than there were (backend/internal/issue/shuffle.go).
use skill_issues.Prelude.{
  take-drop, ℕ, zero, suc, ◌+◌, ◌-◌, ◌*◌, ◌≤◌, ◌<◌, ◌≡◌, refl, sym, ap, ◌∙◌, min, Bool, true, ◌&&◌,
  none, some, List, [], ◌∷◌, ◌++◌, ltb, leb, if◌then◌else◌, keep, take, drop, length, length-append,
  All, All-take, All-keep_test, arith, if_cases,
}
use skill_issues.Catalog.Shuffle.{
  Slot, Position, at_slot, is_after, has_issue, last_position, shuffle_batch, shuffle_from_matches,
  Taken, full, short, take_slots, go_on, Budget, bounded_batch, stop_here, walk_loop, shuffle_walk,
  max_shuffle_batch,
}
use skill_issues.Catalog.Shuffle.Splits.{
  left_count, hits_after, Splits, taken-Splits, bounded_batch_positive,
}
use skill_issues.Catalog.Shuffle.Order.{IsOrdered, is_after_trans}

length-keep_mono :
    (p q : Slot → Bool) (xs : List Slot)
    → ((s : Slot) → p s ≡ true → q s ≡ true)
    → length (keep p xs) ≤ length (keep q xs)
length-keep_mono p q [] h = omega arith
length-keep_mono p q (x ∷ xs) h = ground (arith, h x, length-keep_mono p q xs h)

module _ (index : List Slot) where
  abbrev pub left : Position → ℕ
  left pos = length (keep (is_after pos) index)

  -- A position that is after `pos` leaves no more than `pos` does.
  later :
      (pos from : Position) (run : List Slot)
      → All (λ s. is_after pos s ≡ true) run
      → ((t : Slot) → is_after from t ≡ true → is_after pos t ≡ true)
      → (t : Slot) → is_after (last_position from run) t ≡ true
      → is_after pos t ≡ true
  later pos from [] a f t h = f t h
  later pos from (s ∷ run) a f t h =
      later pos (at_slot s) run a.1 (λ t k. is_after_trans pos s t a.0 k) t h

  left_count-started :
      (s : Slot) (run : List Slot)
      → left_count index (last_position (at_slot s) run) ≡ left (last_position (at_slot s) run)
  left_count-started s [] = refl
  left_count-started s (t ∷ run) = left_count-started t run

  left_count-run :
      (pos : Position) (run : List Slot)
      → All (λ s. is_after pos s ≡ true) run
      → left_count index (last_position none run) ≤ left pos
  left_count-run pos [] a = omega arith
  left_count-run pos (s ∷ run) a = omega (
    arith,
    left_count-started s run,
    length-keep_mono (is_after (last_position (at_slot s) run)) (is_after pos) index
        (later pos (at_slot s) run a.1 (λ t k. is_after_trans pos s t a.0 k)),
  )

  left_count-le : (pos : Position) → left_count index pos ≤ left pos
  left_count-le none = omega arith
  left_count-le (some p) = omega arith

  -- A result whose cursor leaves at most `n` repositories.
  abbrev Leaves : ℕ → List Slot × Position → Type 0
  Leaves n (page, next) = left_count index next ≤ n

  matches-Leaves : (pos : Position) (n : ℕ) → Leaves (left pos) (shuffle_from_matches index pos n)
  unfolding shuffle_from_matches
  matches-Leaves pos n =
      let found = keep (is_after pos) (keep has_issue index) in
      let run = take n found in
      if_cases (λ next. left_count index next ≤ left pos) (ltb (length run) n) none
        (last_position none run) (λ _. omega arith)
        (λ _. left_count-run pos run (
          All-take (λ s. is_after pos s ≡ true) n found
            (All-keep_test (is_after pos) (keep has_issue index))))

  -- There is no cursor, or it leaves fewer than `n` repositories.
  abbrev pub Moves : ℕ → Position → Type 0
  Moves n none = Unit
  Moves n (some p) = left (some p) < n

  Moves-count : (n : ℕ) (next : Position) → left_count index next < n → Moves n next
  Moves-count n none h = tt
  Moves-count n (some p) h = h

  Moves-more : (m n : ℕ) (next : Position) → m ≤ n → Moves m next → Moves n next
  Moves-more m n none l h = tt
  Moves-more m n (some p) l h = omega (arith, l, h)

  go_on-Moves :
      (limit n : ℕ) (all : List Slot) (pos : Position) (run ss : List Slot) (t : Taken)
      (next : List Slot → Position → List Slot × Position)
      → Splits index limit all pos run ss t
      → length (run ++ ss) ≤ n
      → ((page : List Slot) (cursor : Position)
          → Splits index limit all pos run ss (short page cursor)
          → Moves n (next page cursor).1)
      → Moves n (go_on t next).1
  go_on-Moves limit n all pos run ss (full page cursor) next h l f =
      Moves-count n cursor (omega (arith, h.1.1, l))
  go_on-Moves limit n all pos run ss (short page cursor) next h l f = f page cursor h

  batch-Moves :
      IsOrdered index
      → (limit size : ℕ) (hits : List Slot) (pos : Position)
        (again : List Slot → Position → List Slot × Position)
      → 0 < size
      → length hits < limit
      → ((page : List Slot) (cursor : Position)
          → length page < limit
          → Moves (suc (left cursor)) (again page cursor).1)
      → let run = shuffle_batch index pos size in
        Moves
          (left pos)
          (go_on
            (take_slots limit hits pos run)
            (λ page cursor. if ltb (length run) size then (page, none) else again page cursor)).1
  batch-Moves o limit size hits pos again positive l f =
      let all = hits ++ hits_after index pos in
      let rest = keep (is_after pos) index in
      let run = take size rest in
      let ss = drop size rest in
      let whole : length run + length ss ≡ left pos =
        sym (length-append run ss) ∙ ap length (take-drop size rest) in
      go_on-Moves limit (left pos) all pos run ss (take_slots limit hits pos run)
        (λ page cursor. if ltb (length run) size then (page, none) else again page cursor)
        (taken-Splits index o limit all hits pos run ss (sym (take-drop size rest)) refl l)
        (omega (arith, ap length (take-drop size rest)))
        (λ page cursor h.
          if_cases (λ r. Moves (left pos) r.1) (ltb (length run) size) (page, none)
            (again page cursor) (λ _. tt)
            (λ t.
              Moves-more (suc (left cursor)) (left pos) (again page cursor).1
                (ground (arith, t, whole, positive, ap length h.1.0)) (f page cursor h.1.1.0)))

  walk_loop-Moves :
      IsOrdered index
      → (fuel : ℕ) (b : Budget) (limit : ℕ) (hits : List Slot) (pos : Position) (walked batch : ℕ)
      → 0 < batch
      → length hits < limit
      → Moves (suc (left pos)) (walk_loop fuel index b limit hits pos walked batch).1
  unfolding walk_loop
  walk_loop-Moves o zero b limit hits pos walked batch n l = tt
  walk_loop-Moves o (suc fuel) b limit hits pos walked batch n l =
      let goal : List Slot × Position → Type 0 = λ r. Moves (suc (left pos)) r.1 in
      let size = bounded_batch b.max_repos walked limit batch in
      let positive : 0 < size =
        bounded_batch_positive index b.max_repos walked limit batch (omega (arith, l)) n in
      let run = shuffle_batch index pos size in
      let found = shuffle_from_matches index pos (limit - length hits) in
      let again = λ (page : List Slot) (cursor : Position).
        walk_loop fuel index b limit page cursor (walked + length run)
          (min (size * 2) max_shuffle_batch) in
      let batches =
        go_on (take_slots limit hits pos run)
          (λ page cursor. if ltb (length run) size then (page, none) else again page cursor) in
      let matches = if b.matches_late then stop_here hits pos else (hits ++ found.0, found.1) in
      let stop : goal (stop_here hits pos) =
        Moves-count (suc (left pos)) pos (omega (arith, left_count-le pos)) in
      let bounded = ltb 0 b.max_repos && leb b.max_repos walked in
      if_cases goal (ltb 0 walked && b.is_late walked) (stop_here hits pos)
        (if bounded then matches else batches) (λ _. stop)
        (λ _.
          if_cases goal bounded matches batches
            (λ _.
              if_cases goal b.matches_late (stop_here hits pos) (hits ++ found.0, found.1)
                (λ _. stop)
                (λ _.
                  Moves-count (suc (left pos)) found.1
                    (omega (arith, matches-Leaves pos (limit - length hits)))))
            (λ _. Moves-more (left pos) (suc (left pos)) batches.1 (omega arith) (
              batch-Moves o limit size hits pos again positive l (λ page cursor lp.
                walk_loop-Moves o fuel b limit page cursor (walked + length run)
                  (min (size * 2) max_shuffle_batch) (omega (arith, positive)) lp))))

  -- The first batch is read whatever the bounds are, so a page's cursor is a new one.
  pub shuffle_walk-Moves :
      IsOrdered index
      → (b : Budget) (pos : Position) (limit : ℕ) → 0 < limit
      → Moves (left pos) (shuffle_walk index b pos limit).1
  unfolding shuffle_walk walk_loop
  shuffle_walk-Moves o b pos limit l =
      let size = bounded_batch b.max_repos 0 limit (2 * limit) in
      let run = shuffle_batch index pos size in
      let found = shuffle_from_matches index pos (limit - 0) in
      let again = λ (page : List Slot) (cursor : Position).
        walk_loop (length index) index b limit page cursor (0 + length run)
          (min (size * 2) max_shuffle_batch) in
      let positive : 0 < size =
        bounded_batch_positive index b.max_repos 0 limit (2 * limit) l (omega (arith, l)) in
      if_cases (λ r. Moves (left pos) r.1) (ltb 0 b.max_repos && leb b.max_repos 0)
        (if b.matches_late then stop_here [] pos else found)
        (go_on (take_slots limit [] pos run)
          (λ page cursor. if ltb (length run) size then (page, none) else again page cursor))
        (λ t. ground (arith, t))
        (λ _. batch-Moves o limit size [] pos again positive l (λ page cursor lp.
          walk_loop-Moves o (length index) b limit page cursor (0 + length run)
            (min (size * 2) max_shuffle_batch) (omega (arith, positive)) lp))
