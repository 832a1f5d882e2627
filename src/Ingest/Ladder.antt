-- ===== src/Ingest/Ladder.antt =====
-- `fetchWithBatchLadder` and `rateLimitPause` (backend/internal/ingest/worker.go). `fetch` is the
-- GitHub client's query for a page of issues, asked with the two page sizes.
use skill_issues.Prelude.{
  ℕ, zero, suc, ◌+◌, ◌/◌, ◌<◌, max, ◌≡◌, refl, Bool, true, false, ◌&&◌, List, arith, leb,
  if◌then◌else◌, if_cases,
}

pub data Fetched : Type 0 where
  page : List ℕ → Fetched
  resource_limit : Fetched
  other_error : Fetched

-- `none_yet`: the fuel ran out before the loop ended.
pub data Ladder : Type 0 where
  returned : Fetched → Ladder
  none_yet : Ladder

abbrev pub at_bottom : ℕ → ℕ → Bool
at_bottom size closed_size = leb size 1 && leb closed_size 1

module _ (fetch : ℕ → ℕ → Fetched) where
  unfoldable pub batch_ladder : ℕ → ℕ → ℕ → Ladder
  batch_ladder zero size closed_size = none_yet
  batch_ladder (suc fuel) size closed_size = elim (fetch size closed_size) [
    | page ids ↦ returned (page ids)
    | other_error ↦ returned other_error
    | resource_limit ↦
        if at_bottom size closed_size
        then returned resource_limit
        else batch_ladder fuel (max (size / 2) 1) (max (closed_size / 2) 1)
  ]

-- `max(snap.Seconds(...), retryAfter)`
abbrev pub rate_limit_pause : ℕ → ℕ → ℕ
rate_limit_pause configured retry_after = max configured retry_after

abbrev pub has_ended : Ladder → Bool
has_ended (returned f) = true
has_ended none_yet = false

module _ (fetch : ℕ → ℕ → Fetched) where
  one_rung :
      (fuel size closed_size : ℕ) (answer : Fetched)
      → (at_bottom size closed_size ≡ false
          → has_ended (batch_ladder fetch fuel (max (size / 2) 1) (max (closed_size / 2) 1)) ≡ true)
      → has_ended (elim answer [
        | page ids ↦ returned (page ids)
        | other_error ↦ returned other_error
        | resource_limit ↦
            if at_bottom size closed_size
            then returned resource_limit
            else batch_ladder fetch fuel (max (size / 2) 1) (max (closed_size / 2) 1)
      ])
        ≡ true
  one_rung fuel size closed_size (page ids) h = refl
  one_rung fuel size closed_size other_error h = refl
  one_rung fuel size closed_size resource_limit h =
      if_cases (λ l. has_ended l ≡ true) (at_bottom size closed_size) (returned resource_limit)
        (batch_ladder fetch fuel (max (size / 2) 1) (max (closed_size / 2) 1)) (λ bottom. refl) h

  -- The retries end, whatever GitHub answers: with more fuel than the two page sizes together (a size
  -- below one counted as one), the loop returns.
  pub batch_ladder_ends :
      (fuel size closed_size : ℕ)
      → max size 1 + max closed_size 1 < fuel
      → has_ended (batch_ladder fetch fuel size closed_size) ≡ true
  unfolding batch_ladder
  batch_ladder_ends zero size closed_size h = ground (arith, h)
  batch_ladder_ends (suc fuel) size closed_size h =
      one_rung fuel size closed_size (fetch size closed_size) (λ higher.
        batch_ladder_ends fuel (max (size / 2) 1) (max (closed_size / 2) 1)
          (ground (arith, h, higher)))
