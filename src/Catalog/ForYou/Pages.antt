-- ===== src/Catalog/ForYou/Pages.antt =====
-- Reading the For you feed page after page (backend/internal/issue/foryou.go).
use skill_issues.Prelude.{
  ℕ, zero, suc, ◌+◌, ◌-◌, ◌≤◌, ◌<◌, ◌≡◌, refl, sym, ap, ◌∙◌, subst, min, Bool, true, false, Option,
  none, some, List, [], ◌++◌, append-nil, append_assoc, ltb, leb, if◌then◌else◌, take, drop, length,
  length-append, length-take, take_rest, drop-drop, drop-append, drop-all, length-drop, arith,
  if_cases,
}
use skill_issues.Catalog.Shuffle.{Slot, Budget}
use skill_issues.Catalog.ForYou.{Spot, Chunk, draw_chunk, fill_page}
use skill_issues.Catalog.ForYou.Walk.{chunk_at, after_chunk, Walks, ends, goes}

module _ (above : ℕ → ℕ → ℕ → Bool) (index : List Slot) (budget : Budget) (pool : ℕ) where
  abbrev pub WalkIds : ℕ → Spot → List ℕ → Type 0
  WalkIds = Walks above index budget pool

  abbrev pub chunk : Spot → Chunk
  chunk at = chunk_at above index budget pool at

  -- A walk's first chunk and what follows it.
  abbrev Opened : ℕ → Spot → List ℕ → Type 0
  Opened n at ids =
      (more : List ℕ) × ((ids ≡ (chunk at).ids ++ more)
        × (((chunk at).is_end ≡ true → more ≡ [])
            × ((chunk at).is_end ≡ false
                → (m : ℕ) × ((suc m ≤ n)
                    × WalkIds m (after_chunk above index budget pool at) more))))

  open_walk : {n : ℕ} {at : Spot} {ids : List ℕ} → WalkIds n at ids → Opened n at ids
  open_walk {at} (ends e) =
      ([], (sym (append-nil (chunk at).ids), ((λ _. refl), (λ f. ground (arith, e, f)))))
  open_walk (goes {n} {ids} e w) =
      (ids, (refl, ((λ f. ground (arith, e, f)), (λ _. (n, (omega arith, w))))))

  -- The offset is no part of where a chunk begins.
  moved_walk :
      {n : ℕ} {at : Spot} {ids : List ℕ} (offset : ℕ)
      → WalkIds n at ids
      → WalkIds n (record at { offset = offset }) ids
  unfolding draw_chunk
  moved_walk offset (ends e) = ends e
  moved_walk offset (goes e w) = goes e w

  chunk-moved : (at : Spot) (offset : ℕ) → chunk (record at { offset = offset }) ≡ chunk at
  unfolding draw_chunk
  chunk-moved at offset = refl

  pub walk_some : {n : ℕ} {at : Spot} {ids : List ℕ} → WalkIds n at ids → 1 ≤ n
  walk_some (ends e) = omega arith
  walk_some (goes e w) = omega arith

  -- What the next pages show, within a bound on the ids and chunks that are left.
  abbrev pub LeavesWithin : ℕ → List ℕ → Option Spot → Type 0
  LeavesWithin bound rest none = rest ≡ []
  LeavesWithin bound rest (some at) =
      (n : ℕ) × ((ids : List ℕ) × (WalkIds n at ids
          × ((at.offset ≤ length (chunk at).ids)
              × ((drop at.offset ids ≡ rest) × (length rest + n ≤ bound)))))

  abbrev pub IsSlice : ℕ → List ℕ → List ℕ × Option Spot → Type 0
  IsSlice bound all (page, next) =
      (rest : List ℕ) × ((page ++ rest ≡ all) × LeavesWithin bound rest next)

  module _ (limit : ℕ) (page : List ℕ) (at : Spot) where
    abbrev unshown : List ℕ
    unshown = drop at.offset (chunk at).ids

    abbrev taken : List ℕ
    taken = take (limit - length page) unshown

    abbrev offset_after : ℕ
    offset_after = at.offset + length taken

    -- The ids of a walk from the offset on.
    from_offset :
        (ids more : List ℕ)
        → at.offset ≤ length (chunk at).ids
        → ids ≡ (chunk at).ids ++ more
        → drop at.offset ids ≡ unshown ++ more
    from_offset ids more l e = ap (drop at.offset) e ∙ drop-append at.offset (chunk at).ids more l

    length-taken : length taken ≡ min (limit - length page) (length (chunk at).ids - at.offset)
    length-taken =
        length-take (limit - length page) unshown
        ∙ ap (min (limit - length page)) (length-drop at.offset (chunk at).ids)

    -- The page ends within the chunk.
    inside :
        (n bound : ℕ) (ids more : List ℕ)
        → WalkIds n at ids
        → at.offset ≤ length (chunk at).ids
        → length page < limit
        → length (drop at.offset ids) + n ≤ suc bound
        → ids ≡ (chunk at).ids ++ more
        → offset_after < length (chunk at).ids
        → IsSlice bound
            (page ++ drop at.offset ids)
            (page ++ taken, some (record at { offset = offset_after }))
    inside n bound ids more w l f h e t =
        let cut : taken ++ drop offset_after ids ≡ drop at.offset ids =
          ap (λ r. taken ++ r)
            (sym (drop-drop at.offset (length taken) ids)
              ∙ (ap (drop (length taken)) (from_offset ids more l e)
                  ∙ drop-append (length taken) unshown more
                      (omega (arith, length-take (limit - length page) unshown))))
          ∙ (sym (append_assoc taken (drop (length taken) unshown) more)
              ∙ (ap (λ r. r ++ more) (take_rest (limit - length page) unshown)
                  ∙ sym (from_offset ids more l e))) in
        (
          drop offset_after ids,
          (
            append_assoc page taken (drop offset_after ids) ∙ ap (λ r. page ++ r) cut,
            (
              n,
              (
                ids,
                (
                  moved_walk offset_after w,
                  (
                    subst (λ (c : Chunk). offset_after ≤ length c.ids)
                        (sym (chunk-moved at offset_after)) (omega (arith, t)),
                    (
                      refl,
                      omega (
                        arith,
                        h,
                        t,
                        f,
                        length-taken,
                        ap length cut,
                        length-append taken (drop offset_after ids),
                      ),
                    ),
                  ),
                ),
              ),
            ),
          ),
        )

    -- The page takes what the chunk still has, and goes on, if the walk does.
    past :
        (bound : ℕ) (ids more : List ℕ) (again : List ℕ × Option Spot)
        → at.offset ≤ length (chunk at).ids
        → ids ≡ (chunk at).ids ++ more
        → length (chunk at).ids ≤ offset_after
        → ((chunk at).is_end ≡ true → more ≡ [])
        → ((chunk at).is_end ≡ false → IsSlice bound ((page ++ taken) ++ more) again)
        → IsSlice bound
            (page ++ drop at.offset ids)
            (if (chunk at).is_end then (page ++ taken, none) else again)
    past bound ids more again l e t at_end further =
        let all : taken ≡ unshown =
          sym (append-nil taken)
          ∙ (ap (λ r. taken ++ r)
                (sym (
                  drop-all (length taken) unshown
                    (omega (arith, t, length-drop at.offset (chunk at).ids))))
              ∙ take_rest (limit - length page) unshown) in
        let whole : (page ++ taken) ++ more ≡ page ++ drop at.offset ids =
          append_assoc page taken more
          ∙ ap (λ r. page ++ r) (ap (λ r. r ++ more) all ∙ sym (from_offset ids more l e)) in
        if_cases (IsSlice bound (page ++ drop at.offset ids)) (chunk at).is_end
          (page ++ taken, none) again
          (λ c. ([], (ap (λ r. (page ++ taken) ++ r) (sym (at_end c)) ∙ whole, refl)))
          (λ c. subst (λ r. IsSlice bound r again) whole (further c))

    one_chunk :
        (n bound : ℕ) (ids : List ℕ) (again : List ℕ × Option Spot)
        → WalkIds n at ids
        → at.offset ≤ length (chunk at).ids
        → length page < limit
        → length (drop at.offset ids) + n ≤ suc bound
        → ((m : ℕ) (more : List ℕ)
            → WalkIds m (after_chunk above index budget pool at) more
            → length more + m ≤ bound
            → IsSlice bound ((page ++ taken) ++ more) again)
        → IsSlice bound (page ++ drop at.offset ids) (
            if ltb offset_after (length (chunk at).ids)
            then (page ++ taken, some (record at { offset = offset_after }))
            else (if (chunk at).is_end then (page ++ taken, none) else again))
    one_chunk n bound ids again w l f h next =
        let (more, (e, (at_end, further))) = open_walk w in
        if_cases (IsSlice bound (page ++ drop at.offset ids))
          (ltb offset_after (length (chunk at).ids))
          (page ++ taken, some (record at { offset = offset_after }))
          (if (chunk at).is_end then (page ++ taken, none) else again)
          (λ t. inside n bound ids more w l f h e (ground (arith, t)))
          (λ t. past bound ids more again l e (ground (arith, t)) at_end (λ c.
            let (m, (fewer, walk)) = further c in
            next m more walk (
              omega (
                arith,
                h,
                fewer,
                ap length (from_offset ids more l e),
                length-append unshown more,
              ))))

  fill_page-IsSlice :
      (chunks limit : ℕ) (page : List ℕ) (at : Spot) (n bound : ℕ) (ids : List ℕ)
      → WalkIds n at ids
      → at.offset ≤ length (chunk at).ids
      → length (drop at.offset ids) + n ≤ bound
      → IsSlice bound
          (page ++ drop at.offset ids)
          (fill_page above index budget pool chunks limit page at)
  unfolding fill_page
  fill_page-IsSlice zero limit page at n bound ids w l h =
      (drop at.offset ids, (refl, (n, (ids, (w, (l, (refl, h)))))))
  fill_page-IsSlice (suc chunks) limit page at n bound ids w l h =
      let c = chunk at in
      let shown = page ++ take (limit - length page) (drop at.offset c.ids) in
      let again =
        fill_page above index budget pool chunks limit shown
          (after_chunk above index budget pool at) in
      if_cases (IsSlice bound (page ++ drop at.offset ids)) (leb limit (length page))
        (page, some at)
        (if ltb (at.offset + length (take (limit - length page) (drop at.offset c.ids)))
            (length c.ids)
          then (
            shown,
            some (record at {
              offset = at.offset + length (take (limit - length page) (drop at.offset c.ids));
            }),
          )
          else (if c.is_end then (shown, none) else again))
        (λ _. (drop at.offset ids, (refl, (n, (ids, (w, (l, (refl, h))))))))
        (λ t.
          one_chunk limit page at n bound ids again w l (ground (arith, t)) (omega (arith, h))
            (λ m more walk less.
              fill_page-IsSlice chunks limit shown (after_chunk above index budget pool at) m bound
                more walk (omega arith) less))

  -- A page of at least one id shows an id or finishes a chunk.
  pub page-IsSlice :
      (chunks limit : ℕ) (at : Spot) (n bound : ℕ) (ids : List ℕ)
      → WalkIds n at ids
      → at.offset ≤ length (chunk at).ids
      → 0 < limit
      → length (drop at.offset ids) + n ≤ suc bound
      → IsSlice bound
          (drop at.offset ids)
          (fill_page above index budget pool (suc chunks) limit [] at)
  unfolding fill_page
  page-IsSlice chunks limit at n bound ids w l f h =
      let c = chunk at in
      let shown = take (limit - 0) (drop at.offset c.ids) in
      let again =
        fill_page above index budget pool chunks limit shown
          (after_chunk above index budget pool at) in
      if_cases (IsSlice bound (drop at.offset ids)) (leb limit 0) ([], some at)
        (if ltb (at.offset + length shown) (length c.ids)
          then (shown, some (record at { offset = at.offset + length shown }))
          else (if c.is_end then (shown, none) else again))
        (λ t. ground (arith, t, f))
        (λ _. one_chunk limit [] at n bound ids again w l f h (λ m more walk less.
          fill_page-IsSlice chunks limit shown (after_chunk above index budget pool at) m bound more
            walk (omega arith) less))
