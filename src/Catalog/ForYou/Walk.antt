-- ===== src/Catalog/ForYou/Walk.antt =====
-- The chunks of a For you walk (backend/internal/issue/foryou.go), one after the other: together they
-- are the feed, each chunk in its drawn order.
use skill_issues.Prelude.{
  ℕ, zero, suc, ◌+◌, ◌≤◌, ◌<◌, ◌≡◌, refl, sym, ap, ◌∙◌, subst, max, Bool, true, false, none, some,
  List, [], ◌∷◌, ◌++◌, append-nil, append_assoc, if_true, if_false, if◌then◌else◌, keep, length,
  length-map, length-append, length-keep-le, arith, Bool-cases, inl, inr, if_cases,
}
use skill_issues.Prelude.Sort.{sort_stable-perm, length-sort_stable}
use mathlib.Core.List.{Perm}
use mathlib.Core.List.Perm
use skill_issues.Catalog.Shuffle.{Slot, Position, Budget, is_after, has_issue, shuffle_walk}
use skill_issues.Catalog.Shuffle.Order.{IsOrdered, keep-top}
use skill_issues.Catalog.Shuffle.Splits.{hits_after, rest_after, shuffle_walk-IsCut}
use skill_issues.Catalog.Shuffle.Progress.{left, Moves, shuffle_walk-Moves}
use skill_issues.Catalog.Shuffle.Pages.{feed}
use skill_issues.Catalog.ForYou.{
  Spot, Chunk, from_of, take_before, has_reached, unless, issues_of, wrapped_chunk, first_chunk,
  draw_for_you, drawn_before, draw_chunk, next_spot,
}
use skill_issues.Catalog.ForYou.Chunks.{is_early, wrapped-cut}

module _ (above : ℕ → ℕ → ℕ → Bool) (index : List Slot) (budget : Budget) (pool : ℕ) where
  abbrev pub chunk_at : Spot → Chunk
  chunk_at at = draw_chunk above index budget pool at

  abbrev pub after_chunk : Spot → Spot
  after_chunk at = next_spot above index budget pool at (chunk_at at)

  -- The ids of so many chunks, from the one at a spot on to the end of the walk.
  pub data Walks : ℕ → Spot → List ℕ → Type 0 where
    ends : {at : Spot} → (chunk_at at).is_end ≡ true → Walks 1 at (chunk_at at).ids
    goes :
        {n : ℕ} {at : Spot} {ids : List ℕ}
        → (chunk_at at).is_end ≡ false
        → Walks n (after_chunk at) ids
        → Walks (suc n) at ((chunk_at at).ids ++ ids)

  -- The slots that a walk has to come to: what is left of the order and, unless it has gone round the
  -- end, the slots before its start.
  abbrev pub to_come : Spot → List Slot
  to_come at =
      if at.wrapped
      then keep (is_early at.start) (hits_after index (from_of at))
      else hits_after index (from_of at) ++ keep (is_early at.start) (feed index)

  -- A bound on the number of chunks.
  abbrev pub chunks_left : Spot → ℕ
  chunks_left at =
      if at.wrapped then left index (from_of at) else left index (from_of at) + suc (length index)

  pub issues_of-append : (xs ys : List Slot) → issues_of (xs ++ ys) ≡ issues_of xs ++ issues_of ys
  issues_of-append [] ys = refl
  issues_of-append (x ∷ xs) ys = ap (λ r. x.issue ∷ r) (issues_of-append xs ys)

  -- One chunk: it ends the walk with all that was to come, or takes a part and leaves the rest to
  -- fewer chunks.
  abbrev Takes : Spot → Chunk → Type 0
  Takes at c =
      (kept : List Slot) × ((Perm c.ids (issues_of kept) × (length c.ids ≡ length kept))
        × ((c.is_end ≡ true → to_come at ≡ kept)
            × (c.is_end ≡ false
                → (to_come at ≡ kept ++ to_come (next_spot above index budget pool at c))
                  × (chunks_left (next_spot above index budget pool at c) < chunks_left at))))

  drawn-perm : (seed : ℕ) (ids : List ℕ) → Perm (draw_for_you above index budget pool seed ids) ids
  unfolding draw_for_you
  drawn-perm seed ids = sort_stable-perm (drawn_before above index budget pool seed) ids

  drawn-length :
      (seed : ℕ) (ids : List ℕ)
      → length (draw_for_you above index budget pool seed ids) ≡ length ids
  unfolding draw_for_you
  drawn-length seed ids = length-sort_stable (drawn_before above index budget pool seed) ids

  drawn :
      (seed : ℕ) (hits : List Slot)
      → Perm (draw_for_you above index budget pool seed (issues_of hits)) (issues_of hits)
        × (length (draw_for_you above index budget pool seed (issues_of hits)) ≡ length hits)
  drawn seed hits = (
    drawn-perm seed (issues_of hits),
    drawn-length seed (issues_of hits) ∙ length-map (λ (s : Slot). s.issue) hits,
  )

  first-Takes :
      (at : Spot) (hits : List Slot) (next : Position)
      → at.wrapped ≡ false
      → hits ++ rest_after index next ≡ hits_after index (from_of at)
      → Moves index (left index (from_of at)) next
      → Takes at (first_chunk (draw_for_you above index budget pool at.seed (issues_of hits)) next)
  first-Takes at hits none w whole m =
      let early = keep (is_early at.start) (feed index) in
      (
        hits,
        (
          drawn at.seed hits,
          (
            (λ e. ground (arith, e)),
            (λ _. (
              if_false at.wrapped _ _ w
                  ∙ (ap (λ r. r ++ early) (sym whole ∙ append-nil hits)
                      ∙ ap (λ r. hits ++ keep (is_early at.start) (keep has_issue r))
                          (sym (keep-top index))),
              subst (λ n. left index none < n) (sym (if_false at.wrapped _ _ w))
                  (omega (arith, length-keep-le (is_after none) index)),
            )),
          ),
        ),
      )
  first-Takes at hits (some (key, repo)) w whole m =
      let early = keep (is_early at.start) (feed index) in
      (
        hits,
        (
          drawn at.seed hits,
          (
            (λ e. ground (arith, e)),
            (λ _. (
              if_false at.wrapped _ _ w
                  ∙ (ap (λ r. r ++ early) (sym whole)
                      ∙ append_assoc hits (hits_after index (some (key, repo))) early),
              subst (λ n. left index (some (key, repo)) + suc (length index) < n)
                  (sym (if_false at.wrapped _ _ w)) (omega (arith, m)),
            )),
          ),
        ),
      )

  wrapped-Takes :
      (at : Spot) (kept : List Slot) (next : Position)
      → at.wrapped ≡ true
      → keep (is_early at.start) (hits_after index (from_of at))
        ≡ kept ++ keep (is_early at.start) (rest_after index next)
      → Moves index (left index (from_of at)) next
      → Takes at
          (wrapped_chunk (draw_for_you above index budget pool at.seed (issues_of kept)) next)
  wrapped-Takes at kept none w cut m = (
    kept,
    (
      drawn at.seed kept,
      ((λ _. if_true at.wrapped _ _ w ∙ (cut ∙ append-nil kept)), (λ e. ground (arith, e))),
    ),
  )
  wrapped-Takes at kept (some (key, repo)) w cut m = (
    kept,
    (
      drawn at.seed kept,
      (
        (λ e. ground (arith, e)),
        (λ _. (
          if_true at.wrapped _ _ w ∙ cut,
          subst (λ n. left index (some (key, repo)) < n) (sym (if_true at.wrapped _ _ w)) m,
        )),
      ),
    ),
  )

  unless-Moves :
      (n : ℕ) (b : Bool) (next : Position) → Moves index n next → Moves index n (unless b next)
  unless-Moves n b next m = if_cases (Moves index n) b none next (λ _. tt) (λ _. m)

  module _ (o : IsOrdered index) where
    chunk-Takes : (at : Spot) → Takes at (chunk_at at)
    unfolding draw_chunk
    chunk-Takes at =
        let limit = max pool 1 in
        let positive : 0 < limit = omega arith in
        let walked = shuffle_walk index budget (from_of at) limit in
        let found = take_before at.start walked.0 in
        let cut = if found.1 then true else has_reached at.start walked.1 in
        let moves = shuffle_walk-Moves index o budget (from_of at) limit positive in
        if_cases (Takes at) at.wrapped
          (wrapped_chunk (draw_for_you above index budget pool at.seed (issues_of found.0))
            (unless cut walked.1))
          (first_chunk (draw_for_you above index budget pool at.seed (issues_of walked.0)) walked.1)
          (λ w.
            wrapped-Takes at found.0 (unless cut walked.1) w
              (wrapped-cut index budget o at.start (from_of at) limit positive)
              (unless-Moves (left index (from_of at)) cut walked.1 moves))
          (λ w.
            first-Takes at walked.0 walked.1 w
              (shuffle_walk-IsCut index budget (from_of at) limit o positive).0 moves)

    -- A walk from a spot: its chunks, their ids, and that these are what was to come, in some order.
    abbrev pub WalkFrom : Spot → Type 0
    WalkFrom at =
        (n : ℕ) × ((ids : List ℕ) × (Walks n at ids
            × ((n ≤ suc (chunks_left at))
                × (Perm ids (issues_of (to_come at)) × (length ids ≡ length (to_come at))))))

    pub walk_from : (fuel : ℕ) (at : Spot) → chunks_left at < fuel → WalkFrom at
    walk_from zero at h = ground (arith, h)
    walk_from (suc fuel) at h =
        let (kept, (shown, (at_end, further))) = chunk-Takes at in
        let ids = (chunk_at at).ids in
        elim (Bool-cases (chunk_at at).is_end) [
          | inl e ↦ (
            1,
            (
              ids,
              (
                ends e,
                (
                  omega arith,
                  (
                    subst (λ r. Perm ids (issues_of r)) (sym (at_end e)) shown.0,
                    shown.1 ∙ ap length (sym (at_end e)),
                  ),
                ),
              ),
            ),
          )
          | inr e ↦
              let (split, fewer) = further e in
              let (n, (rest, (walk, (bound, (perm, same))))) =
                walk_from fuel (after_chunk at) (omega (arith, h, fewer)) in
              (
                suc n,
                (
                  ids ++ rest,
                  (
                    goes e walk,
                    (
                      omega (arith, bound, fewer),
                      (
                        subst (λ r. Perm (ids ++ rest) r)
                            (sym (
                              ap issues_of split
                              ∙ issues_of-append kept (to_come (after_chunk at))))
                            (Perm.append shown.0 perm),
                        omega (
                          arith,
                          length-append ids rest,
                          shown.1,
                          same,
                          ap length split,
                          length-append kept (to_come (after_chunk at)),
                        ),
                      ),
                    ),
                  ),
                ),
              )
        ]
