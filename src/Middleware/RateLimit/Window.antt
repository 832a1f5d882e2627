-- ===== src/Middleware/RateLimit/Window.antt =====
-- How many requests of one key the fixed-window counter lets through
-- (`CheckRateLimit`, backend/internal/cache/redis.go).
use skill_issues.Prelude.{
  ℕ, suc, ◌+◌, ◌-◌, ◌<◌, min, ◌≡◌, true, Option, none, some, List, [], ◌∷◌, length, All, arith,
  lt→ltb, if◌then◌else◌,
}
use skill_issues.Middleware.RateLimit.{Counter, check_rate_limit, live}

-- The requests that are let through, of those at the given times, in their order, while Redis takes
-- every call.
unfoldable pub admitted : ℕ → ℕ → List ℕ → Option Counter → ℕ
unfolding check_rate_limit
admitted limit window [] stored = 0
admitted limit window (t ∷ ts) stored =
    let checked = check_rate_limit true t limit window stored in
    let rest = admitted limit window ts checked.0 in if checked.1.allowed then suc rest else rest

admitted_live :
    (limit window : ℕ) (ts : List ℕ) (count end_at : ℕ)
    → All (λ t. t < end_at) ts
    → admitted limit window ts (some (record { value = count; expires = some end_at }))
      ≡ min (length ts) (limit - count)
unfolding admitted check_rate_limit
admitted_live limit window [] count end_at h = omega arith
admitted_live limit window (t ∷ ts) count end_at h =
    rw (lt→ltb t end_at h.0) (ground (arith, admitted_live limit window ts (suc count) end_at h.1))

-- While Redis takes every call: a window opens with a request that finds no counter, or an expired
-- one. Of it and the requests of the key after it, all before the window's end, as many are let
-- through as there are, and `limit` of them when there are more.
pub admitted_in_window :
    (limit window t : ℕ) (ts : List ℕ) (stored : Option Counter)
    → live t stored ≡ none
    → All (λ u. u < t + window) ts
    → admitted limit window (t ∷ ts) stored ≡ min (suc (length ts)) limit
unfolding admitted check_rate_limit
admitted_in_window limit window t ts stored dead h =
    rw dead (ground (arith, admitted_live limit window ts 1 (t + window) h))
