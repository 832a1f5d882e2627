-- ===== src/Middleware/RateLimit.antt =====
-- `RateLimiter` and `exempt` (backend/internal/middleware/ratelimit.go) and the fixed-window counter
-- that they ask, `CheckRateLimit` (backend/internal/cache/redis.go). A counter of Redis is its value
-- and the time at which it expires, if it has one; times and windows are in nanoseconds. The
-- pipeline of a check is one step: no other request's commands come in between.
pub mod Window
use skill_issues.Prelude.{
  ℕ, suc, ◌+◌, ◌-◌, ◌*◌, ◌/◌, ◌≡◌, Bool, true, false, ◌&&◌, ◌||◌, Option, none, some, leb, ltb,
  if◌then◌else◌,
}
use skill_issues.Prelude.Text.{Text, ascii, text_eq}
use skill_issues.Middleware.ClientIp.{Key}

pub record Counter : Type 0 where
  pub value : ℕ
  pub expires : Option ℕ

-- What a check answers: `reset_after` is the key's remaining life.
pub record RateLimitResult : Type 0 where
  pub allowed : Bool
  pub remaining : ℕ
  pub reset_after : ℕ
  pub unavailable : Bool

abbrev pub holds_at : ℕ → Option ℕ → Bool
holds_at now none = true
holds_at now (some e) = ltb now e

-- The counter that Redis still holds: an expired key is gone.
abbrev pub live : ℕ → Option Counter → Option Counter
live now none = none
live now (some c) = if holds_at now c.expires then some c else none

-- EXPIRE with NX leaves an expiry that is there.
abbrev pub expire_nx : ℕ → ℕ → Option ℕ → Option ℕ
expire_nx now window none = some (now + window)
expire_nx now window (some e) = some e

-- INCR, then EXPIRE with NX: the first request of a window starts its expiry.
abbrev pub incremented : ℕ → ℕ → Option Counter → Counter
incremented now window none = record { value = 1; expires = some (now + window) }
incremented now window (some c) = record {
  value = suc c.value;
  expires = expire_nx now window c.expires;
}

abbrev pub second_ns : ℕ
second_ns = 1000000000

abbrev pub millisecond_ns : ℕ
millisecond_ns = 1000000

-- TTL after the pipeline's own EXPIRE: Redis answers in whole seconds, rounded from milliseconds.
abbrev pub ttl : ℕ → Option ℕ → ℕ
ttl now none = 0
ttl now (some e) = ((e - now) / millisecond_ns + 500) / 1000 * second_ns

abbrev pub answer : ℕ → ℕ → Counter → RateLimitResult
answer now limit c = record {
  allowed = leb c.value limit;
  remaining = limit - c.value;
  reset_after = ttl now c.expires;
  unavailable = false;
}

abbrev pub fail_open : RateLimitResult
fail_open = record { allowed = true; remaining = 0; reset_after = 0; unavailable = true }

-- `up`: Redis takes the call. The client's breaker and a failed pipeline answer alike.
unfoldable pub check_rate_limit :
    Bool → ℕ → ℕ → ℕ → Option Counter → Option Counter × RateLimitResult
check_rate_limit up now limit window stored =
    if up
    then (let c = incremented now window (live now stored) in (some c, answer now limit c))
    else (stored, fail_open)

pub record RateLimits : Type 0 where
  pub auth : ℕ
  pub unauth : ℕ
  pub window : ℕ

pub data Method : Type 0 where
  get : Method
  head : Method
  other_method : Method

abbrev pub reads : Method → Bool
reads get = true
reads head = true
reads other_method = false

unfoldable pub exempt : Method → Text → Bool
exempt m path =
    (text_eq path (ascii "/health"))
    || (text_eq path (ascii "/health/detail"))
    || (text_eq path (ascii "/metrics"))
    || ((text_eq path (ascii "/stats")) && reads m)

-- Served: with no rate limit headers, or with those of a check. Refused: 429, Retry-After in seconds.
pub data Response : Type 0 where
  served : Response
  served_with : ℕ → ℕ → ℕ → Response
  refused : ℕ → ℕ → ℕ → Response

abbrev pub reset_secs : ℕ → ℕ → ℕ
reset_secs window reset_after =
    if ltb 0 (reset_after / second_ns) then reset_after / second_ns else window / second_ns

abbrev pub limit_of : RateLimits → ℕ → ℕ
limit_of limits user_id = if ltb 0 user_id then limits.auth else limits.unauth

abbrev pub respond : ℕ → ℕ → RateLimitResult → Response
respond limit window res =
    let secs = reset_secs window res.reset_after in
    if res.allowed then served_with limit res.remaining secs else refused limit res.remaining secs

-- The handler, on the counter of the caller's key. `cached`: there is a cache at all.
unfoldable pub rate_limiter :
    Bool → Bool → Method → Text → ℕ → RateLimits → ℕ → Option Counter → Option Counter × Response
unfolding exempt check_rate_limit
rate_limiter cached up m path user_id limits now stored =
    if cached && (if exempt m path then false else true)
    then (let limit = limit_of limits user_id in
        let checked = check_rate_limit up now limit limits.window stored in
        (checked.0, respond limit limits.window checked.1))
    else (stored, served)
