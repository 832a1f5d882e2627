-- ===== src/Catalog/Shuffle/Splits.antt =====
-- A page of the walk and what is left after its cursor make up what was left before
-- (`shuffleWalk` and `shuffleFromMatches`, backend/internal/issue/shuffle.go).
use skill_issues.Prelude.{
  take-drop, ℕ, zero, suc, ◌+◌, ◌-◌, ◌*◌, ◌≤◌, ◌<◌, ◌≡◌, refl, sym, ap, ◌∙◌, subst, min, ◌&&◌, none,
  some, List, [], ◌∷◌, ◌++◌, append_assoc, ltb, leb, ◌==◌, if◌then◌else◌, keep, take, drop, length,
  length-append, length-take, length-keep-le, Bool-cases, inl, inr, arith, if_cases,
}
use skill_issues.Catalog.Shuffle.{
  Slot, Position, at_slot, is_after, has_issue, last_position, shuffle_batch, shuffle_from_matches,
  Taken, full, short, add_hit, take_slots, go_on, Budget, bounded_batch, stop_here, walk_loop,
  shuffle_walk, max_shuffle_batch,
}
use skill_issues.Catalog.Shuffle.Order.{
  IsOrdered, left-step, left-run, keep-IsOrdered, keep_comm, drop_short,
}

module _ (index : List Slot) where
  -- The hits from a position on.
  abbrev pub hits_after : Position → List Slot
  hits_after pos = keep has_issue (keep (is_after pos) index)

  -- The hits that the next pages have; without a cursor, none.
  abbrev pub rest_after : Position → List Slot
  rest_after none = []
  rest_after (some p) = hits_after (some p)

  keep_hit :
      (hits : List Slot) (s : Slot) (ss : List Slot)
      → add_hit hits s ++ keep has_issue ss ≡ hits ++ keep has_issue (s ∷ ss)
  keep_hit hits s ss = elim (Bool-cases (has_issue s)) [
    | inl e ↦ rw e (append_assoc hits (s ∷ []) (keep has_issue ss))
    | inr e ↦ rw e refl
  ]

  -- How many repositories the next pages walk.
  abbrev pub left_count : Position → ℕ
  left_count none = 0
  left_count (some p) = length (keep (is_after (some p)) index)

  -- What the loop over a batch makes of the hits so far and the slots that are left: `all` is what
  -- they come to, and `ss` is left after the batch.
  abbrev pub Splits : ℕ → List Slot → Position → List Slot → List Slot → Taken → Type 0
  Splits limit all pos run ss (full page cursor) =
      (page ++ rest_after cursor ≡ all)
      × ((length page ≡ limit) × (left_count cursor < length (run ++ ss)))
  Splits limit all pos run ss (short page cursor) =
      (page ++ hits_after cursor ≡ all)
      × ((keep (is_after cursor) index ≡ ss)
          × ((length page < limit) × (cursor ≡ last_position pos run)))

  from_next :
      (limit : ℕ) (all : List Slot) (pos : Position) (s : Slot) (run ss : List Slot) (t : Taken)
      → Splits limit all (at_slot s) run ss t
      → Splits limit all pos (s ∷ run) ss t
  from_next limit all pos s run ss (full page cursor) h = (h.0, (h.1.0, omega (arith, h.1.1)))
  from_next limit all pos s run ss (short page cursor) h = h

  pub taken-Splits :
      IsOrdered index
      → (limit : ℕ) (all hits : List Slot) (pos : Position) (run ss : List Slot)
      → keep (is_after pos) index ≡ run ++ ss
      → hits ++ hits_after pos ≡ all
      → length hits < limit
      → Splits limit all pos run ss (take_slots limit hits pos run)
  taken-Splits o limit all hits pos [] ss e a l = (a, (e, (l, refl)))
  taken-Splits o limit all hits pos (s ∷ run) ss e a l =
      let step : keep (is_after (at_slot s)) index ≡ run ++ ss =
        left-step index pos s (run ++ ss) o e in
      let moved : add_hit hits s ++ hits_after (at_slot s) ≡ all =
        ap (λ r. add_hit hits s ++ keep has_issue r) step
        ∙ (keep_hit hits s (run ++ ss) ∙ (ap (λ r. hits ++ keep has_issue r) (sym e) ∙ a)) in
      if_cases (Splits limit all pos (s ∷ run) ss)
        (has_issue s && (length (add_hit hits s) == limit)) (full (add_hit hits s) (at_slot s))
        (take_slots limit (add_hit hits s) (at_slot s) run)
        (λ t. (moved, (ground (arith, t), omega (arith, ap length step))))
        (λ t. from_next limit all pos s run ss (take_slots limit (add_hit hits s) (at_slot s) run) (
          taken-Splits o limit all (add_hit hits s) (at_slot s) run ss step moved
            (ground (arith, t, length-append hits (s ∷ [])))))

  rest-started :
      (s : Slot) (run : List Slot)
      → rest_after (last_position (at_slot s) run) ≡ hits_after (last_position (at_slot s) run)
  rest-started s [] = refl
  rest-started s (t ∷ run) = rest-started t run

  -- A page, and what its cursor leaves, are what there was.
  abbrev pub IsCut : ℕ → List Slot → List Slot × Position → Type 0
  IsCut limit all (page, next) = (page ++ rest_after next ≡ all) × (length page ≤ limit)

  run_cut :
      IsOrdered index
      → (pos : Position) (run ss : List Slot)
      → keep (is_after pos) (keep has_issue index) ≡ run ++ ss
      → 0 < length run
      → run ++ rest_after (last_position none run) ≡ run ++ ss
  run_cut o pos [] ss e l = ground (arith, l)
  run_cut o pos (s ∷ run) ss e l =
      ap (λ r. s ∷ run ++ r)
        (rest-started s run
          ∙ (keep_comm has_issue (is_after (last_position (at_slot s) run)) index
              ∙ left-run (keep has_issue index) pos (s ∷ run) ss (keep-IsOrdered has_issue index o)
                  e))

  matches-IsCut :
      IsOrdered index
      → (pos : Position) (n : ℕ) → 0 < n
      → IsCut n (hits_after pos) (shuffle_from_matches index pos n)
  unfolding shuffle_from_matches
  matches-IsCut o pos n l =
      let found = keep (is_after pos) (keep has_issue index) in
      let run = take n found in
      let whole : run ++ drop n found ≡ hits_after pos =
        take-drop n found ∙ keep_comm (is_after pos) has_issue index in
      let bound : length run ≤ n = omega (arith, length-take n found) in
      if_cases (λ next. IsCut n (hits_after pos) (run, next)) (ltb (length run) n) none
        (last_position none run)
        (λ t. (ap (λ r. run ++ r) (sym (drop_short n found (ground (arith, t)))) ∙ whole, bound))
        (λ t. (
          run_cut o pos run (drop n found) (sym (take-drop n found)) (ground (arith, l, t)) ∙ whole,
          bound,
        ))

  go_on-IsCut :
      (limit : ℕ) (all : List Slot) (pos : Position) (run ss : List Slot) (t : Taken)
      (next : List Slot → Position → List Slot × Position)
      → Splits limit all pos run ss t
      → ((page : List Slot) (cursor : Position)
          → Splits limit all pos run ss (short page cursor)
          → IsCut limit all (next page cursor))
      → IsCut limit all (go_on t next)
  go_on-IsCut limit all pos run ss (full page cursor) next h f = (h.0, omega (arith, h.1.0))
  go_on-IsCut limit all pos run ss (short page cursor) next h f = f page cursor h

  pub run-started :
      (pos : Position) (run : List Slot)
      → 0 < length run
      → rest_after (last_position pos run) ≡ hits_after (last_position pos run)
  run-started pos [] l = ground (arith, l)
  run-started pos (s ∷ run) l = rest-started s run

  pub bounded_batch_positive :
      (max_repos walked limit batch : ℕ)
      → 0 < limit
      → 0 < batch
      → 0 < bounded_batch max_repos walked limit batch
  bounded_batch_positive max_repos walked limit batch l h = ground (arith, l, h)

  -- The hits so far, and a page of the matches.
  with_matches :
      IsOrdered index
      → (limit : ℕ) (hits : List Slot) (pos : Position) → length hits < limit
      → let (rest, next) = shuffle_from_matches index pos (limit - length hits) in
        IsCut limit (hits ++ hits_after pos) (hits ++ rest, next)
  with_matches o limit hits pos l =
      let found = shuffle_from_matches index pos (limit - length hits) in
      let (cut, bound) = matches-IsCut o pos (limit - length hits) (omega (arith, l)) in
      (
        append_assoc hits found.0 (rest_after found.1) ∙ ap (λ r. hits ++ r) cut,
        omega (arith, length-append hits found.0, bound, l),
      )

  -- One batch, and `again` from its end on when the batch was a whole one.
  batch-IsCut :
      IsOrdered index
      → (limit size : ℕ) (hits : List Slot) (pos : Position)
        (again : List Slot → Position → List Slot × Position)
      → 0 < size
      → length hits < limit
      → ((page : List Slot) (cursor : Position)
          → keep (is_after cursor) index ≡ drop size (keep (is_after pos) index)
          → size ≤ length (take size (keep (is_after pos) index))
          → length page < limit
          → rest_after cursor ≡ hits_after cursor
          → IsCut limit (page ++ hits_after cursor) (again page cursor))
      → let run = shuffle_batch index pos size in
        IsCut limit (hits ++ hits_after pos) (
          go_on
            (take_slots limit hits pos run)
            (λ page cursor. if ltb (length run) size then (page, none) else again page cursor))
  batch-IsCut o limit size hits pos again positive l f =
      let all = hits ++ hits_after pos in
      let left = keep (is_after pos) index in
      let run = take size left in
      let ss = drop size left in
      go_on-IsCut limit all pos run ss (take_slots limit hits pos run)
        (λ page cursor. if ltb (length run) size then (page, none) else again page cursor)
        (taken-Splits o limit all hits pos run ss (sym (take-drop size left)) refl l)
        (λ page cursor h.
          if_cases (IsCut limit all) (ltb (length run) size) (page, none) (again page cursor)
            (λ t. (
              ap (λ r. page ++ keep has_issue r)
                    (sym (h.1.0 ∙ drop_short size left (ground (arith, t))))
                  ∙ h.0,
              omega (arith, h.1.1.0),
            ))
            (λ t.
              subst (λ x. IsCut limit x (again page cursor)) h.0
                (f page cursor h.1.0 (ground (arith, t)) h.1.1.0 (
                  subst (λ c. rest_after c ≡ hits_after c) (sym h.1.1.1)
                    (run-started pos run (ground (arith, t, positive)))))))

  pub walk_loop-IsCut :
      IsOrdered index
      → (fuel : ℕ) (b : Budget) (limit : ℕ) (hits : List Slot) (pos : Position) (walked batch : ℕ)
      → length (keep (is_after pos) index) < fuel
      → 0 < batch
      → length hits < limit
      → (0 < walked → rest_after pos ≡ hits_after pos)
      → IsCut limit (hits ++ hits_after pos) (walk_loop fuel index b limit hits pos walked batch)
  unfolding walk_loop
  walk_loop-IsCut o zero b limit hits pos walked batch f n l w = ground (arith, f)
  walk_loop-IsCut o (suc fuel) b limit hits pos walked batch f n l w =
      let all = hits ++ hits_after pos in
      let size = bounded_batch b.max_repos walked limit batch in
      let positive : 0 < size =
        bounded_batch_positive b.max_repos walked limit batch (omega (arith, l)) n in
      let left = keep (is_after pos) index in
      let run = take size left in
      let found = shuffle_from_matches index pos (limit - length hits) in
      let again = λ (page : List Slot) (cursor : Position).
        walk_loop fuel index b limit page cursor (walked + length run)
          (min (size * 2) max_shuffle_batch) in
      let batches =
        go_on (take_slots limit hits pos run)
          (λ page cursor. if ltb (length run) size then (page, none) else again page cursor) in
      let matches = if b.matches_late then stop_here hits pos else (hits ++ found.0, found.1) in
      let stop : 0 < walked → IsCut limit all (stop_here hits pos) =
        λ h. (ap (λ r. hits ++ r) (w h), omega (arith, l)) in
      let bounded = ltb 0 b.max_repos && leb b.max_repos walked in
      if_cases (IsCut limit all) (ltb 0 walked && b.is_late walked) (stop_here hits pos)
        (if bounded then matches else batches) (λ t. stop (ground (arith, t)))
        (λ _.
          if_cases (IsCut limit all) bounded matches batches
            (λ t.
              if_cases (IsCut limit all) b.matches_late (stop_here hits pos)
                (hits ++ found.0, found.1) (λ _. stop (ground (arith, t)))
                (λ _. with_matches o limit hits pos l))
            (λ _.
              batch-IsCut o limit size hits pos again positive l (λ page cursor e whole lp started.
                walk_loop-IsCut o fuel b limit page cursor (walked + length run)
                  (min (size * 2) max_shuffle_batch)
                  (omega (
                    arith,
                    f,
                    whole,
                    ap length e,
                    positive,
                    ap length (take-drop size left),
                    length-append run (drop size left),
                  ))
                  (omega (arith, positive)) lp (λ _. started))))

-- A page of the walk, of at most `limit` hits, followed by what its cursor leaves, is what was left
-- before.
pub shuffle_walk-IsCut :
    (index : List Slot) (b : Budget) (pos : Position) (limit : ℕ)
    → IsOrdered index
    → 0 < limit
    → IsCut index limit (hits_after index pos) (shuffle_walk index b pos limit)
unfolding shuffle_walk
shuffle_walk-IsCut index b pos limit o l =
    walk_loop-IsCut index o (suc (length index)) b limit [] pos 0 (2 * limit)
      (omega (arith, length-keep-le (is_after pos) index)) (omega (arith, l)) l
      (λ h. ground (arith, h))
