-- ===== src/Worker/Limiter.antt =====
-- backend/internal/worker/limiter.go. A method that locks the mutex is one function on the state;
-- the channel that a parked caller waits on is its number, and what is closed is returned.
mod Admit
pub mod System
pub mod Fairness
use skill_issues.Prelude.{
  ℕ, suc, ◌+◌, ◌-◌, Bool, true, false, List, [], ◌∷◌, ◌++◌, ltb, ◌==◌, if◌then◌else◌, contains,
  remove,
}
use skill_issues.Prelude.Int.{ℤ, pos, negsuc}

pub record Limiter : Type 0 where
  pub limit : ℕ
  pub in_use : ℕ
  pub waiters : List ℕ

-- `if limit < 1 { limit = 1 }`
abbrev pub at_least_one : ℤ → ℕ
at_least_one (pos n) = if ltb n 1 then 1 else n
at_least_one (negsuc n) = 1

unfoldable pub new_limiter : ℤ → Limiter
new_limiter limit = record { limit = at_least_one limit; in_use = 0; waiters = [] }

-- The loop of `admitLocked` over its variables: in use, still waiting, woken.
pub record Admitted : Type 0 where
  pub used : ℕ
  pub still : List ℕ
  pub woken : List ℕ

unfoldable pub admit_loop : ℕ → ℕ → List ℕ → Admitted
admit_loop limit used [] = record { used = used; still = []; woken = [] }
admit_loop limit used (ch ∷ rest) =
    let more = admit_loop limit (suc used) rest in
    if ltb used limit
    then record { used = more.used; still = more.still; woken = ch ∷ more.woken }
    else record { used = used; still = ch ∷ rest; woken = [] }

unfoldable pub admit_locked : Limiter → Limiter × List ℕ
unfolding admit_loop
admit_locked l =
    let r = admit_loop l.limit l.in_use l.waiters in
    (record l { in_use = r.used; waiters = r.still }, r.woken)

-- The locked part of `Acquire`: a slot at once, or the caller's channel joins the queue.
unfoldable pub acquire : Limiter → ℕ → Limiter × Bool
acquire l ch =
    if ltb l.in_use l.limit
    then (record l { in_use = l.in_use + 1 }, true)
    else (record l { waiters = l.waiters ++ ch ∷ [] }, false)

-- `if l.inUse > 0 { l.inUse-- }`
abbrev pub give_back : Limiter → Limiter
give_back l = if ltb 0 l.in_use then record l { in_use = l.in_use - 1 } else l

unfoldable pub release : Limiter → Limiter × List ℕ
unfolding admit_locked
release l = admit_locked (give_back l)

unfoldable pub set_limit : Limiter → ℤ → Limiter × List ℕ
unfolding admit_locked
set_limit l limit =
    let n = at_least_one limit in
    if l.limit == n then (l, []) else admit_locked (record l { limit = n })

-- The `ctx.Done()` branch of `Acquire`.
unfoldable pub abandon : Limiter → ℕ → Limiter × List ℕ
unfolding admit_locked
abandon l ch =
    if contains l.waiters ch
    then (record l { waiters = remove ch l.waiters }, [])
    else admit_locked (give_back l)
